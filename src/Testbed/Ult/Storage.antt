-- ===== src/Testbed/Ult/Storage.antt =====
-- libfibers/testbed/src/ult.c: the storage of fibers, in one array for all of them. Each call is one
-- atomic step. fls_idx is below 2 ^ 63 as long as there are fewer calls of fls_alloc. An index behind the
-- array is no error here.
use fibers.Prelude.{
  ℕ, suc, ◌≤◌, ◌<◌, ◌≡◌, refl, Bool, true, false, not, ℤ, pos, negsuc, arith, ltb, if◌then◌else◌,
  update,
}

abbrev pub max_fls : ℕ
max_fls = 4096

-- `fls` and `fls_idx`
pub record Storage : Type 0 where
  pub fls : ℕ → ℤ
  pub fls_idx : ℕ

unfoldable pub fls_alloc : Storage → ℤ × Storage
fls_alloc s =
    let ret = s.fls_idx in
    let s' : Storage = record s { fls_idx = suc s.fls_idx } in
    if not (ltb ret max_fls) then (negsuc 0, s') else (pos ret, s')

unfoldable pub fls_get : ℕ → Storage → ℤ
fls_get idx s = s.fls idx

unfoldable pub fls_set : ℕ → ℤ → Storage → Storage
fls_set idx value s = record s { fls = update s.fls idx value }

-- Nothing is given back.
unfoldable pub fls_free : ℕ → Storage → Bool × Storage
fls_free idx s = (true, s)

-- What a fiber should see: the indices that it has got, and the values that it has stored there last.
pub record Own : Type 0 where
  pub owns : ℕ → Bool
  pub last : ℕ → ℤ

abbrev pub grant : ℤ → Own → Own
grant (pos idx) o = record o { owns = update o.owns idx true }
grant (negsuc _) o = o

abbrev pub keep : ℕ → ℤ → Own → Own
keep idx value o = record o { last = update o.last idx value }

-- Any interleaving of the calls of fibers that write only at indices that fls_alloc has given them, also
-- behind fls_free.
pub data Uses : (ℕ → Own) → Storage → Type 0 where
  unused :
      Uses
        (λ i. record { owns = λ idx. false; last = λ idx. pos 0 })
        (record { fls = λ idx. pos 0; fls_idx = 0 })
  allocates :
      {o : ℕ → Own} {s : Storage}
      → Uses o s
      → (i : ℕ) → Uses (update o i (grant (fls_alloc s).0 (o i))) (fls_alloc s).1
  stores :
      {o : ℕ → Own} {s : Storage}
      → Uses o s
      → (i idx : ℕ) (value : ℤ) → (o i).owns idx ≡ true
      → Uses (update o i (keep idx value (o i))) (fls_set idx value s)
  frees : {o : ℕ → Own} {s : Storage} → Uses o s → (idx : ℕ) → Uses o (fls_free idx s).1

record IsPrivate (o : ℕ → Own) (s : Storage) : Type 0 where
  given : (i idx : ℕ) → (o i).owns idx ≡ true → (idx < s.fls_idx) × (idx < max_fls)
  alone : (i j idx : ℕ) → (o i).owns idx ≡ true → (o j).owns idx ≡ true → i ≡ j
  fresh : (i idx : ℕ) → s.fls_idx ≤ idx → (o i).last idx ≡ pos 0
  blank : (idx : ℕ) → s.fls_idx ≤ idx → s.fls idx ≡ pos 0
  same : (i idx : ℕ) → (o i).owns idx ≡ true → s.fls idx ≡ (o i).last idx

Uses-IsPrivate : (o : ℕ → Own) (s : Storage) → Uses o s → IsPrivate o s
unfolding fls_alloc fls_set fls_free
Uses-IsPrivate o s unused = record {
  given = λ i idx p. ground arith;
  alone = λ i j idx p q. ground arith;
  fresh = λ i idx h. refl;
  blank = λ idx h. refl;
  same = λ i idx p. refl;
}
Uses-IsPrivate o' s' (allocates {o = o} {s = s} u i) =
    let c = Uses-IsPrivate o s u in
    record {
      given = λ j idx p. ground (arith, c.given j idx);
      alone = λ j k idx p q. ground (arith, c.alone j k idx, c.given j idx, c.given k idx);
      fresh = λ j idx h. ground (arith, c.fresh j idx);
      blank = λ idx h. ground (arith, c.blank idx);
      same = λ j idx p. ground (arith, c.same j idx, c.fresh j idx, c.blank idx);
    }
Uses-IsPrivate o' s' (stores {o = o} {s = s} u i idx value p) =
    let c = Uses-IsPrivate o s u in
    record {
      given = λ j x q. ground (arith, c.given j x);
      alone = λ j k x q r. ground (arith, c.alone j k x);
      fresh = λ j x h. ground (arith, c.fresh j x, c.given i idx p);
      blank = λ x h. ground (arith, c.blank x, c.given i idx p);
      same = λ j x q. ground (arith, c.same j x, c.alone i j x);
    }
Uses-IsPrivate o' s' (frees u idx) =
    let c = Uses-IsPrivate o' _ u in
    record { given = c.given; alone = c.alone; fresh = c.fresh; blank = c.blank; same = c.same }

-- However fibers interleave that write only at indices that fls_alloc has given them: what fls_get
-- returns to a fiber at such an index is the value that this fiber has stored there last, or 0, no
-- other fiber has the index, and it lies in the array.
pub own_storage :
    (o : ℕ → Own) (s : Storage)
    → Uses o s
    → (i idx : ℕ) → (o i).owns idx ≡ true
    → (fls_get idx s ≡ (o i).last idx) × (idx < max_fls) × ((j : ℕ) → (o j).owns idx ≡ true → i ≡ j)
unfolding fls_get
own_storage o s u i idx p =
    let c = Uses-IsPrivate o s u in (c.same i idx p, (c.given i idx p).1, λ j. c.alone i j idx p)
