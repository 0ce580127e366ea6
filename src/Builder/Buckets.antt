-- ===== src/Builder/Buckets.antt =====
-- The buckets of `countsort` (libursa/FlatIndexBuilder.cpp), their sizes, and where they start.
use ursadb.Prelude.{
  ℕ, zero, suc, ◌+◌, ◌-◌, ◌≤◌, ◌<◌, ◌≡◌, refl, ap, ◌∙◌, true, false, List, [], ◌∷◌, ◌++◌, ◌==◌,
  if◌then◌else◌, arith, length, Bool-cases, inl, inr,
}
use ursadb.Builder.Radix.{update, digit, count_loop, sum_loop}

module _ (shift : ℕ) where
  -- The numbers with a digit, in their order.
  unfoldable pub bucket : ℕ → List ℕ → List ℕ
  bucket k [] = []
  bucket k (x ∷ xs) = if digit shift x == k then x ∷ bucket k xs else bucket k xs

  -- The buckets from `k` on.
  unfoldable pub buckets : ℕ → ℕ → List ℕ → List ℕ
  buckets zero k xs = []
  buckets (suc rounds) k xs = bucket k xs ++ buckets rounds (suc k) xs

  abbrev pub size : ℕ → List ℕ → ℕ
  size k xs = length (bucket k xs)

  -- Where a bucket starts.
  unfoldable pub start : ℕ → List ℕ → ℕ
  start zero xs = 0
  start (suc k) xs = start k xs + size k xs

  pub start-zero : (xs : List ℕ) → start 0 xs ≡ 0
  unfolding start
  start-zero xs = refl

  pub start-suc : (k : ℕ) (xs : List ℕ) → start (suc k) xs ≡ start k xs + size k xs
  unfolding start
  start-suc k xs = refl

  pub size-here :
      (k x : ℕ) (xs : List ℕ) → (digit shift x == k) ≡ true → size k (x ∷ xs) ≡ suc (size k xs)
  unfolding bucket
  size-here k x xs same = rw same refl

  pub size-away :
      (k x : ℕ) (xs : List ℕ) → (digit shift x == k) ≡ false → size k (x ∷ xs) ≡ size k xs
  unfolding bucket
  size-away k x xs other = rw other refl

  pub bucket-here :
      (k x : ℕ) (xs : List ℕ) → (digit shift x == k) ≡ true → bucket k (x ∷ xs) ≡ x ∷ bucket k xs
  unfolding bucket
  bucket-here k x xs same = rw same refl

  pub bucket-away :
      (k x : ℕ) (xs : List ℕ) → (digit shift x == k) ≡ false → bucket k (x ∷ xs) ≡ bucket k xs
  unfolding bucket
  bucket-away k x xs other = rw other refl

  pub count_loop_lem :
      (xs : List ℕ) (count : ℕ → ℕ) (k : ℕ) → count_loop shift xs count k ≡ count k + size k xs
  unfolding count_loop
  count_loop_lem [] count k = unfold bucket in omega arith
  count_loop_lem (x ∷ xs) count k =
      let d = digit shift x in
      let rest = count_loop_lem xs (update count d (count d + 1)) k in
      elim (Bool-cases (d == k)) [
        | inl same ↦ ground (arith, rest, size-here k x xs same)
        | inr other ↦ ground (arith, rest, size-away k x xs other)
      ]

  pub sum_loop_lem :
      (rounds i : ℕ) (count : ℕ → ℕ) (xs : List ℕ)
      → 0 < i
      → ((k : ℕ) → k < i → count k ≡ start (suc k) xs)
      → ((k : ℕ) → i ≤ k → count k ≡ size k xs)
      → (k : ℕ) → k < i + rounds
      → sum_loop rounds i count k ≡ start (suc k) xs
  unfolding sum_loop
  sum_loop_lem zero i count xs pos summed counted k below = summed k (omega arith)
  sum_loop_lem (suc rounds) i count xs pos summed counted k below =
      let count' = update count i (count i + count (i - 1)) in
      sum_loop_lem rounds (suc i) count' xs (omega arith) now later k (omega arith)
    where
      at_i : count i + count (i - 1) ≡ start (suc i) xs
      at_i =
          let e : suc (i - 1) ≡ i = omega arith in
          let f : count (i - 1) ≡ start i xs =
            summed (i - 1) (omega arith) ∙ ap (λ n. start n xs) e in
          unfold start in omega (arith, f, counted i (omega arith))

      now : (m : ℕ) → m < suc i → update count i (count i + count (i - 1)) m ≡ start (suc m) xs
      now m lt = elim (Bool-cases (m == i)) [
        | inl same ↦ let e : m ≡ i = ground arith in rw (same, e) at_i
        | inr other ↦ rw other (summed m (ground arith))
      ]

      later : (m : ℕ) → suc i ≤ m → update count i (count i + count (i - 1)) m ≡ size m xs
      later m le = let other : (m == i) ≡ false = ground arith in rw other (counted m (omega arith))

  -- A bucket ends before the next ones start.
  pub start_mono : (k n : ℕ) (xs : List ℕ) → k < n → start k xs + size k xs ≤ start n xs
  unfolding start
  start_mono k zero xs h = absurd (omega arith)
  start_mono k (suc n) xs h = elim (Bool-cases (k == n)) [
    | inl same ↦ let e : k ≡ n = ground arith in rw e (omega arith)
    | inr other ↦ omega (arith, start_mono k n xs (ground arith))
  ]
