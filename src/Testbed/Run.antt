-- ===== src/Testbed/Run.antt =====
-- How a function of libfibers/testbed/src ends.
use fibers.Prelude.{ℕ, ◌≡◌, refl, Bool, true, false, if◌then◌else◌}

-- It returns; it reads outside an array or through a null pointer; it indexes the calendar of a queue
-- with the negative number -(k + 1); the program calls abort or exit; or the model's fuel is used up.
pub data Run (A : Type 0) : Type 0 where
  done : A → Run A
  fault : Run A
  negative_index : ℕ → Run A
  stopped : Run A
  no_fuel : Run A

infixl 5 ◌>>=◌
abbrev pub ◌>>=◌ : {A B : Type 0} → Run A → (A → Run B) → Run B
done a >>= f = f a
fault >>= f = fault
negative_index k >>= f = negative_index k
stopped >>= f = stopped
no_fuel >>= f = no_fuel

-- It returns, within the fuel, a value of which `Q` holds.
abbrev pub Ends : {A : Type 0} → Run A → (A → Type 0) → Type 0
Ends (done a) Q = Q a
Ends fault Q = ⊥
Ends (negative_index k) Q = ⊥
Ends stopped Q = ⊥
Ends no_fuel Q = ⊥

pub Ends-bind :
    {A B : Type 0} (r : Run A) (g : A → Run B) (Q : A → Type 0) (R : B → Type 0)
    → Ends r Q
    → ((a : A) → Q a → Ends (g a) R)
    → Ends (r >>= g) R
Ends-bind (done a) g Q R h k = k a h
Ends-bind fault g Q R h k = elim h [ ]
Ends-bind (negative_index _) g Q R h k = elim h [ ]
Ends-bind stopped g Q R h k = elim h [ ]
Ends-bind no_fuel g Q R h k = elim h [ ]

-- The same, or it indexes the calendar of a queue with a negative number, and `N` holds.
abbrev pub EndsOrNegative : Type 0 → {A : Type 0} → Run A → (A → Type 0) → Type 0
EndsOrNegative N (done a) Q = Q a
EndsOrNegative N fault Q = ⊥
EndsOrNegative N (negative_index k) Q = N
EndsOrNegative N stopped Q = ⊥
EndsOrNegative N no_fuel Q = ⊥

pub Ends-EndsOrNegative :
    (N : Type 0) {A : Type 0} (r : Run A) (Q : A → Type 0) → Ends r Q → EndsOrNegative N r Q
Ends-EndsOrNegative N (done a) Q h = h
Ends-EndsOrNegative N fault Q h = h
Ends-EndsOrNegative N (negative_index _) Q h = elim h [ ]
Ends-EndsOrNegative N stopped Q h = h
Ends-EndsOrNegative N no_fuel Q h = h

pub EndsOrNegative-Ends :
    (N : Type 0) {A : Type 0} (r : Run A) (Q : A → Type 0)
    → (N → ⊥)
    → EndsOrNegative N r Q
    → Ends r Q
EndsOrNegative-Ends N (done a) Q f h = h
EndsOrNegative-Ends N fault Q f h = h
EndsOrNegative-Ends N (negative_index _) Q f h = f h
EndsOrNegative-Ends N stopped Q f h = h
EndsOrNegative-Ends N no_fuel Q f h = h

pub EndsOrNegative-bind :
    (N : Type 0) {A B : Type 0} (r : Run A) (g : A → Run B) (Q : A → Type 0) (R : B → Type 0)
    → EndsOrNegative N r Q
    → ((a : A) → Q a → EndsOrNegative N (g a) R)
    → EndsOrNegative N (r >>= g) R
EndsOrNegative-bind N (done a) g Q R h k = k a h
EndsOrNegative-bind N fault g Q R h k = elim h [ ]
EndsOrNegative-bind N (negative_index _) g Q R h k = h
EndsOrNegative-bind N stopped g Q R h k = elim h [ ]
EndsOrNegative-bind N no_fuel g Q R h k = elim h [ ]

pub EndsOrNegative-map :
    (N : Type 0) {A : Type 0} (r : Run A) (Q R : A → Type 0)
    → EndsOrNegative N r Q
    → ((a : A) → Q a → R a)
    → EndsOrNegative N r R
EndsOrNegative-map N (done a) Q R h k = k a h
EndsOrNegative-map N fault Q R h k = elim h [ ]
EndsOrNegative-map N (negative_index _) Q R h k = h
EndsOrNegative-map N stopped Q R h k = elim h [ ]
EndsOrNegative-map N no_fuel Q R h k = elim h [ ]

-- What holds of the value if it returns one.
abbrev pub Gives : {A : Type 0} → Run A → (A → Type 0) → Type 0
Gives (done a) Q = Q a
Gives fault Q = Unit
Gives (negative_index k) Q = Unit
Gives stopped Q = Unit
Gives no_fuel Q = Unit

pub Gives-bind :
    {A B : Type 0} (r : Run A) (g : A → Run B) (Q : A → Type 0) (R : B → Type 0)
    → Gives r Q
    → ((a : A) → Q a → Gives (g a) R)
    → Gives (r >>= g) R
Gives-bind (done a) g Q R h k = k a h
Gives-bind fault g Q R h k = tt
Gives-bind (negative_index _) g Q R h k = tt
Gives-bind stopped g Q R h k = tt
Gives-bind no_fuel g Q R h k = tt

pub Gives-map :
    {A : Type 0} (r : Run A) (Q R : A → Type 0) → Gives r Q → ((a : A) → Q a → R a) → Gives r R
Gives-map (done a) Q R h k = k a h
Gives-map fault Q R h k = tt
Gives-map (negative_index _) Q R h k = tt
Gives-map stopped Q R h k = tt
Gives-map no_fuel Q R h k = tt

pub EndsOrNegative-both :
    (N : Type 0) {A : Type 0} (r : Run A) (Q R : A → Type 0)
    → EndsOrNegative N r Q
    → Gives r R
    → EndsOrNegative N r (λ a. Q a × R a)
EndsOrNegative-both N (done a) Q R h k = (h, k)
EndsOrNegative-both N fault Q R h k = h
EndsOrNegative-both N (negative_index _) Q R h k = h
EndsOrNegative-both N stopped Q R h k = h
EndsOrNegative-both N no_fuel Q R h k = h

pub Gives-if :
    {A : Type 0} (b : Bool) (x y : Run A) (Q : A → Type 0)
    → (b ≡ true → Gives x Q)
    → (b ≡ false → Gives y Q)
    → Gives (if b then x else y) Q
Gives-if true x y Q h k = h refl
Gives-if false x y Q h k = k refl
