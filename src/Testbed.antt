-- ===== src/Testbed.antt =====
-- libfibers/testbed/src: the simulation that runs on fibers.
pub mod Run
pub mod Double
pub mod Channel
pub mod CalQueue
pub mod Numerical
pub mod Model
pub mod Ult
pub mod Tally
pub mod Spawn
pub mod Driver
