-- ===== src/Calls/Cleanup.antt =====
-- fibers/fiber.c: the two functions that free what a process, or the whole module, has allocated.
use fibers.Prelude.{Bool, true, false, ◌&&◌, List, [], ◌∷◌, none, some, ℤ, pos}
use fibers.Table.{delete}
use fibers.Kernel.{Kernel}
use fibers.Fiber.{ThreadGroup}
use fibers.Group.{World, Outcome, ret, oops, get_group}

-- `hash_for_each_rcu(table, ...) { hash_del_rcu(node); kfree(node); }`: each round ends by reading the
-- link to the next node in the one just freed. False where that read faults.
unfoldable pub free_nodes {ℓ} : {A : Type ℓ} → Bool → List A → Bool
free_nodes readable [] = true
free_nodes readable (x ∷ xs) = readable && free_nodes readable xs

module _ (k : Kernel) where
  -- The rest of cleanup_process, where the group exists.
  unfoldable pub free_group : ThreadGroup → World → Outcome
  free_group tg w =
      elim (free_nodes k.freed_readable tg.threads && free_nodes k.freed_readable tg.fibers) [
        | true ↦ ret (pos 0) (record w { groups = delete ThreadGroup.tgid tg.tgid w.groups })
        | false ↦ oops
      ]

  unfoldable pub cleanup_process : ℤ → World → Outcome
  cleanup_process tgid w = elim (get_group k tgid w.groups) [
    | none ↦ ret (pos 0) w
    | some tg ↦ free_group tg w
  ]

  -- The walk of `groups` in cleanup_all. The body frees the node that the walk then leaves, so this
  -- walk too reads the links of freed nodes.
  unfoldable pub cleanup_each : List ThreadGroup → World → Outcome
  cleanup_each [] w = ret (pos 0) w
  cleanup_each (tg ∷ rest) w = elim (cleanup_process tg.tgid w) [
    | oops ↦ oops
    | ret r w' ↦ elim k.freed_readable [ true ↦ cleanup_each rest w' | false ↦ oops ]
  ]

  unfoldable pub cleanup_all : World → Outcome
  cleanup_all w = cleanup_each w.groups w
