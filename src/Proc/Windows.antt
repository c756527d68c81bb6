-- ===== src/Proc/Windows.antt =====
-- A program that reads /proc/<pid>/fibers/<fid> to its end.
use fibers.Prelude.{
  ℕ, zero, suc, ◌+◌, ◌-◌, ◌≤◌, ◌<◌, ◌≡◌, ◌∙◌, ap, sym, subst, refl, true, List, [], ◌∷◌, ◌++◌, some,
  ℤ, arith, dec_lt, length, take, drop,
}
use mathlib.Core.Path.{fun_ext}
use fibers.Kernel.{Kernel}
use fibers.Fiber.{Fiber, ThreadGroup}
use fibers.Group.{World}
use fibers.Group.Lookup.{group_at, fiber_at, get_group-walk, get_fiber-walk}
use fibers.Proc.{
  Text, ReadResult, copied, failed, null_task, read_fid, fiber_data, read_bytes, read_data,
  fibers_read,
}

-- What a program collects that reads at most `fuel` times, into a buffer of one size, until a read
-- returns no bytes: `read` is the read at an offset.
unfoldable pub collect : (ℕ → ReadResult) → ℕ → ℕ → List ℕ
collect read zero offset = []
collect read (suc fuel) offset = elim (read offset) [
  | copied n bytes offset' ↦ elim n [ zero ↦ [] | suc m ↦ bytes ++ collect read fuel offset' ]
  | failed e ↦ []
  | null_task ↦ []
]

module _ {ℓ} {A : Type ℓ} where
  take-nil : (n : ℕ) → take {A = A} n [] ≡ []
  take-nil zero = refl
  take-nil (suc n) = refl

  drop-nil : (n : ℕ) → drop {A = A} n [] ≡ []
  drop-nil zero = refl
  drop-nil (suc n) = refl

  -- Two windows that touch make one.
  take-take-drop : (a b : ℕ) (xs : List A) → take a xs ++ take b (drop a xs) ≡ take (a + b) xs
  take-take-drop zero b xs = ground arith
  take-take-drop (suc a) zero [] = ground arith
  take-take-drop (suc a) (suc b) [] = ground (arith, take-nil (suc a + suc b))
  take-take-drop (suc a) b (x ∷ xs) =
      let e : suc a + b ≡ suc (a + b) = omega arith in
      rw e (ap (λ ys. x ∷ ys) (take-take-drop a b xs))

  drop-drop : (a b : ℕ) (xs : List A) → drop b (drop a xs) ≡ drop (a + b) xs
  drop-drop zero b xs = ground arith
  drop-drop (suc a) zero [] = ground arith
  drop-drop (suc a) (suc b) [] = ground (arith, drop-nil (suc a + suc b))
  drop-drop (suc a) b (x ∷ xs) =
      let e : suc a + b ≡ suc (a + b) = omega arith in rw e (drop-drop a b xs)

module _ (read : ℕ → ReadResult) (fuel : ℕ) {offset offset' : ℕ} {bytes : List ℕ} where
  collect-ends : read offset ≡ copied 0 bytes offset' → collect read (suc fuel) offset ≡ []
  unfolding collect
  collect-ends e = ground arith

  collect-goes :
      (n : ℕ)
      → 0 < n
      → read offset ≡ copied n bytes offset'
      → collect read (suc fuel) offset ≡ bytes ++ collect read fuel offset'
  unfolding collect
  collect-goes (suc m) h e = ground arith
  collect-goes zero h e = absurd (omega arith)

module _ (b : ℕ) (bytes : List ℕ) (here : 0 < b) where
  -- How many bytes a read at `offset` copies.
  abbrev count : ℕ → ℕ
  count offset = read_bytes b (length bytes) offset

  count-small : (offset : ℕ) → offset < length bytes → count offset ≤ length bytes - 1 - offset
  unfolding read_bytes
  count-small offset h = ground arith

  count-zero : (offset : ℕ) → ¬ (0 < count offset) → length bytes - 1 - offset ≡ 0
  unfolding read_bytes
  count-zero offset h = ground (arith, h)

  read_data-in :
      (offset : ℕ)
      → offset < length bytes
      → read_data true b bytes offset
        ≡ copied (count offset) (take (count offset) (drop offset bytes)) (offset + count offset)
  unfolding read_data
  read_data-in offset h = ground arith

  read_data-out :
      (offset : ℕ) → ¬ (offset < length bytes) → read_data true b bytes offset ≡ copied 0 [] offset
  unfolding read_data
  read_data-out offset h = ground arith

  -- From any offset on, all but the last byte is collected.
  collect-read_data :
      (fuel offset : ℕ)
      → length bytes ≤ offset + fuel
      → collect (read_data true b bytes) fuel offset
        ≡ take (length bytes - 1 - offset) (drop offset bytes)
  unfolding collect
  collect-read_data zero offset h = ground arith
  collect-read_data (suc fuel) offset h = elim (dec_lt offset (length bytes)) [
    | no n ↦
        let none_left : length bytes - 1 - offset ≡ 0 = omega (arith, n) in
        rw none_left (collect-ends (read_data true b bytes) fuel (read_data-out offset n))
    | yes p ↦ elim (dec_lt 0 (count offset)) [
      | no n ↦
          let e : count offset ≡ 0 = omega (arith, n) in
          rw (count-zero offset n) (
            collect-ends (read_data true b bytes) fuel (
              subst
                (λ z.
                  read_data true b bytes offset
                  ≡ copied z (take z (drop offset bytes)) (offset + z))
                e (read_data-in offset p)))
      | yes q ↦
          let rest : length bytes ≤ (offset + count offset) + fuel = omega (arith, h, q) in
          let whole : count offset + (length bytes - 1 - (offset + count offset))
              ≡ length bytes - 1 - offset =
            omega (arith, count-small offset p) in
          let window = drop offset bytes in
          collect-goes (read_data true b bytes) fuel (count offset) q (read_data-in offset p)
          ∙ ap (λ ys. take (count offset) window ++ ys)
              (collect-read_data fuel (offset + count offset) rest)
          ∙ ap
              (λ ys.
                take (count offset) window ++ take (length bytes - 1 - (offset + count offset)) ys)
              (sym (drop-drop offset (count offset) bytes))
          ∙ take-take-drop (count offset) _ window
          ∙ ap (λ n. take n window) whole
    ]
  ]

module _ (k : Kernel) (x : Text) (w : World) (b fuel : ℕ) where
  -- A program reads the file of a fiber from its start, into a buffer of `b` > 0 bytes that can be
  -- written, until a read returns no bytes, with at least as many reads as the text has bytes: it
  -- collects the text but for its last byte.
  pub fibers_read-collects :
      {tg : ThreadGroup} {f : Fiber} (g : ℤ) (name : List ℕ)
      → 0 < b
      → length (fiber_data x f.info) ≤ fuel
      → group_at g w ≡ some tg
      → fiber_at (read_fid x name) tg ≡ some f
      → collect (fibers_read k x w (some g) name true b) fuel 0
        ≡ take (length (fiber_data x f.info) - 1) (fiber_data x f.info)
  unfolding fibers_read
  fibers_read-collects {tg} {f} g name here enough at there =
      let bytes = fiber_data x f.info in
      let same : (offset : ℕ)
          → fibers_read k x w (some g) name true b offset ≡ read_data true b bytes offset =
        λ offset.
          ground (arith, get_group-walk k g w.groups, get_fiber-walk k (read_fid x name) tg) in
      let start : length bytes - 1 - 0 ≡ length bytes - 1 = omega arith in
      ap (λ read. collect read fuel 0) (fun_ext same)
      ∙ collect-read_data b bytes here fuel 0 (omega (arith, enough))
      ∙ ap (λ n. take n bytes) start
