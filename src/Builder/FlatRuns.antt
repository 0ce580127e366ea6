-- ===== src/Builder/FlatRuns.antt =====
-- The sorted pairs of `FlatIndexBuilder` (libursa/FlatIndexBuilder.cpp) as runs, and `std::unique`.
use ursadb.Prelude.{
  ℕ, suc, ◌+◌, ◌*◌, ◌%◌, ◌^◌, ◌≤◌, ◌<◌, ◌≡◌, ◌⊎◌, refl, true, false, ◌||◌, List, [], ◌∷◌, ◌==◌,
  if◌then◌else◌, arith, length, All, elem, IsRun, IsRunFrom, IsU32, Bool-cases, inl, inr,
}
use ursadb.Builder.Flat.{pack, val_of, fid_of, unique_from, unique}
use ursadb.Builder.RadixSort.{SortedBy}

-- The file ids that are packed with an ngram, in their order.
unfoldable pub run_of : List ℕ → ℕ → List ℕ
run_of [] t = []
run_of (d ∷ ds) t = if val_of d == t then fid_of d ∷ run_of ds t else run_of ds t

pub run_of-here :
    (d t : ℕ) (ds : List ℕ) → (val_of d == t) ≡ true → run_of (d ∷ ds) t ≡ fid_of d ∷ run_of ds t
unfolding run_of
run_of-here d t ds same = rw same refl

pub run_of-away :
    (d t : ℕ) (ds : List ℕ) → (val_of d == t) ≡ false → run_of (d ∷ ds) t ≡ run_of ds t
unfolding run_of
run_of-away d t ds other = rw other refl

-- A pair of a 32 bit id and an ngram.
abbrev pub IsPair : ℕ → Type 0
IsPair d = (d < 2 ^ 64) × IsU32 (fid_of d)

-- Behind the last pair of an ngram it has no files.
pub run_of-none :
    (t lo : ℕ) (ds : List ℕ)
    → t * 2 ^ 40 + 2 ^ 40 ≤ lo
    → IsRunFrom lo ds
    → All IsPair ds
    → run_of ds t ≡ []
unfolding run_of
run_of-none t lo [] h r p = refl
run_of-none t lo (d ∷ ds) h r p =
    let other : (val_of d == t) ≡ false = ground arith in
    rw other (run_of-none t (suc d) ds (omega arith) r.1 p.1)

pub run_of-IsRunFrom :
    (t base lo : ℕ) (ds : List ℕ)
    → ((t * 2 ^ 40 + base ≤ lo) ⊎ (base ≡ 0))
    → IsRunFrom lo ds
    → All IsPair ds
    → IsRunFrom base (run_of ds t) × All IsU32 (run_of ds t)
unfolding run_of
run_of-IsRunFrom t base lo [] h r p = (tt, tt)
run_of-IsRunFrom t base lo (d ∷ ds) h r p = elim (Bool-cases (val_of d == t)) [
  | inl same ↦
      let (run, small) =
        run_of-IsRunFrom t (suc (fid_of d)) (suc d) ds (inl (ground arith)) r.1 p.1 in
      rw same ((ground arith, run), (p.0.1, small))
  | inr other ↦ rw other (run_of-IsRunFrom t base (suc d) ds (weaker h) r.1 p.1)
]
  where
    weaker : ((t * 2 ^ 40 + base ≤ lo) ⊎ (base ≡ 0)) → (t * 2 ^ 40 + base ≤ suc d) ⊎ (base ≡ 0)
    weaker (inl le) = inl (omega (arith, r.0))
    weaker (inr e) = inr e

-- The members of a run are the ids of the pairs.
pub elem-run_of :
    (t a : ℕ) (ds : List ℕ)
    → t < 2 ^ 24
    → a < 2 ^ 40
    → All IsPair ds
    → elem a (run_of ds t) ≡ elem (pack a t) ds
unfolding run_of
elem-run_of t a [] ht ha p = refl
elem-run_of t a (d ∷ ds) ht ha p = elim (Bool-cases (val_of d == t)) [
  | inl same ↦
      let e : (a == fid_of d) ≡ (pack a t == d) = ground arith in
      rw (same, e, elem-run_of t a ds ht ha p.1) refl
  | inr other ↦
      let e : (pack a t == d) ≡ false = ground arith in
      rw (other, e, elem-run_of t a ds ht ha p.1) refl
]

length-run_of : (t : ℕ) (ds : List ℕ) → length (run_of ds t) ≤ length ds
unfolding run_of
length-run_of t [] = omega arith
length-run_of t (d ∷ ds) = ground (arith, length-run_of t ds)

-- Without repetitions, what was in order increases.
unique_from-IsRunFrom :
    (last : ℕ) (xs : List ℕ)
    → last < 2 ^ 64
    → All (λ y. last % 2 ^ 64 ≤ y % 2 ^ 64) xs
    → SortedBy (2 ^ 64) xs
    → All IsPair xs
    → IsRunFrom (suc last) (unique_from last xs) × All IsPair (unique_from last xs)
unfolding unique_from
unique_from-IsRunFrom last [] small h s p = (tt, tt)
unique_from-IsRunFrom last (x ∷ xs) small h s p = elim (Bool-cases (x == last)) [
  | inl same ↦ rw same (unique_from-IsRunFrom last xs small h.1 s.1 p.1)
  | inr other ↦
      let (run, pairs) = unique_from-IsRunFrom x xs p.0.0 s.0 s.1 p.1 in
      rw other ((ground arith, run), (p.0, pairs))
]

pub unique-IsRun :
    (xs : List ℕ)
    → SortedBy (2 ^ 64) xs
    → All IsPair xs
    → IsRun (unique xs) × All IsPair (unique xs)
unfolding unique
unique-IsRun [] s p = (tt, tt)
unique-IsRun (x ∷ xs) s p =
    let (run, pairs) = unique_from-IsRunFrom x xs p.0.0 s.0 s.1 p.1 in
    ((omega arith, run), (p.0, pairs))

elem-unique_from :
    (a last : ℕ) (xs : List ℕ)
    → ((a == last) || elem a (unique_from last xs)) ≡ ((a == last) || elem a xs)
unfolding unique_from
elem-unique_from a last [] = refl
elem-unique_from a last (x ∷ xs) =
    ground (arith, elem-unique_from a last xs, elem-unique_from a x xs)

pub elem-unique : (a : ℕ) (xs : List ℕ) → elem a (unique xs) ≡ elem a xs
unfolding unique
elem-unique a [] = refl
elem-unique a (x ∷ xs) = elem-unique_from a x xs

length-unique_from : (last : ℕ) (xs : List ℕ) → length (unique_from last xs) ≤ length xs
unfolding unique_from
length-unique_from last [] = omega arith
length-unique_from last (x ∷ xs) =
    ground (arith, length-unique_from last xs, length-unique_from x xs)

pub length-unique : (xs : List ℕ) → length (unique xs) ≤ length xs
unfolding unique
length-unique [] = omega arith
length-unique (x ∷ xs) = omega (arith, length-unique_from x xs)
