-- ===== src/Builder/RadixSort.antt =====
-- `flat_radixsort` of libursa/FlatIndexBuilder.cpp sorts: each pass sorts by one byte more, and the
-- passes that it skips are those of bytes that are zero in every number.
use ursadb.Prelude.{
  ℕ, zero, suc, ◌+◌, ◌*◌, ◌/◌, ◌%◌, ◌^◌, ◌≤◌, ◌<◌, ◌≡◌, refl, sym, ap, ◌∙◌, true, ◌&&◌, ◌||◌, List,
  [], ◌∷◌, ◌++◌, ◌==◌, leb, ltb, arith, length, All, elem, Bool-cases, inl, inr,
}
use native.Mathlib.Nat.{div-add-mod, mul-add-mod_self_left, mod-eq_of_lt, mod-lt}
use ursadb.Builder.Radix.{digit, radix_loop}
use ursadb.Builder.Buckets.{bucket, buckets}
use ursadb.Builder.CountSort.{countsort-buckets, length-all_buckets}

-- In order by the remainders modulo `m`.
abbrev pub SortedBy : ℕ → List ℕ → Type 0
SortedBy m [] = Unit
SortedBy m (x ∷ xs) = All (λ y. x % m ≤ y % m) xs × SortedBy m xs

All-append {κ} : (P : ℕ → Type κ) (xs ys : List ℕ) → All P xs → All P ys → All P (xs ++ ys)
All-append P [] ys h k = k
All-append P (x ∷ xs) ys h k = (h.0, All-append P xs ys h.1 k)

All-map {κ μ} :
    (P : ℕ → Type κ) (Q : ℕ → Type μ) (xs : List ℕ) → ((x : ℕ) → P x → Q x) → All P xs → All Q xs
All-map P Q [] f h = tt
All-map P Q (x ∷ xs) f h = (f x h.0, All-map P Q xs f h.1)

All-both {κ μ} :
    (P : ℕ → Type κ) (Q : ℕ → Type μ) (xs : List ℕ) → All P xs → All Q xs → All (λ x. P x × Q x) xs
All-both P Q [] h k = tt
All-both P Q (x ∷ xs) h k = ((h.0, k.0), All-both P Q xs h.1 k.1)

SortedBy-append :
    (m : ℕ) (xs ys : List ℕ)
    → SortedBy m xs
    → SortedBy m ys
    → All (λ x. All (λ y. x % m ≤ y % m) ys) xs
    → SortedBy m (xs ++ ys)
SortedBy-append m [] ys h k c = k
SortedBy-append m (x ∷ xs) ys h k c =
    (All-append (λ y. x % m ≤ y % m) xs ys h.0 c.0, SortedBy-append m xs ys h.1 k c.1)

module _ (shift m : ℕ) (power : 2 ^ shift ≡ m) (pos : 0 < m) where
  -- What is in a bucket, and stays there.
  All-bucket {κ} : (P : ℕ → Type κ) (k : ℕ) (xs : List ℕ) → All P xs → All P (bucket shift k xs)
  unfolding bucket
  All-bucket P k [] h = tt
  All-bucket P k (x ∷ xs) h = elim (Bool-cases (digit shift x == k)) [
    | inl same ↦ rw same (h.0, All-bucket P k xs h.1)
    | inr other ↦ rw other (All-bucket P k xs h.1)
  ]

  All-buckets {κ} :
      (P : ℕ → Type κ) (rounds k : ℕ) (xs : List ℕ) → All P xs → All P (buckets shift rounds k xs)
  unfolding buckets
  All-buckets P zero k xs h = tt
  All-buckets P (suc rounds) k xs h =
      All-append P (bucket shift k xs) _ (All-bucket P k xs h) (All-buckets P rounds (suc k) xs h)

  bucket-digit : (k : ℕ) (xs : List ℕ) → All (λ x. digit shift x ≡ k) (bucket shift k xs)
  unfolding bucket
  bucket-digit k [] = tt
  bucket-digit k (x ∷ xs) = elim (Bool-cases (digit shift x == k)) [
    | inl same ↦ rw same (ground arith, bucket-digit k xs)
    | inr other ↦ rw other (bucket-digit k xs)
  ]

  buckets-digit :
      (rounds k : ℕ) (xs : List ℕ) → All (λ x. k ≤ digit shift x) (buckets shift rounds k xs)
  unfolding buckets
  buckets-digit zero k xs = tt
  buckets-digit (suc rounds) k xs =
      All-append (λ x. k ≤ digit shift x) (bucket shift k xs) _
        (All-map (λ x. digit shift x ≡ k) (λ x. k ≤ digit shift x) _ (λ x e. omega arith)
          (bucket-digit k xs))
        (All-map (λ x. suc k ≤ digit shift x) (λ x. k ≤ digit shift x) _ (λ x e. omega arith)
          (buckets-digit rounds (suc k) xs))

  -- A remainder with one byte more.
  split_next : (x q d r : ℕ) → x ≡ m * q + r → x ≡ m * 256 * (q / 256) + (q % 256 * m + r)
  split_next x q d r e =
      let f : q ≡ 256 * (q / 256) + q % 256 = omega arith in e ∙ ap (λ n. m * n + r) f ∙ grind arith

  next_small : (d r : ℕ) → d < 256 → r < m → d * m + r < m * 256
  next_small d r hd hr = grind arith

  next_mod : (x : ℕ) → x % (m * 256) ≡ digit shift x * m + x % m
  next_mod x =
      let e : x ≡ m * (x / m) + x % m = sym (div-add-mod x m) in
      rw power (
        ap (λ n. n % (m * 256)) (split_next x (x / m) 0 (x % m) e)
        ∙ mul-add-mod_self_left (m * 256) (x / m / 256) (x / m % 256 * m + x % m)
        ∙ mod-eq_of_lt (next_small (x / m % 256) (x % m) (omega arith) (mod-lt x pos)))

  digit_order : (d e r s : ℕ) → d < e → r < m → d * m + r ≤ e * m + s
  digit_order d e r s h hr = grind arith

  -- A bucket stays in order, and so do all of them one behind the other.
  bucket-SortedBy : (k : ℕ) (xs : List ℕ) → SortedBy m xs → SortedBy m (bucket shift k xs)
  unfolding bucket
  bucket-SortedBy k [] h = tt
  bucket-SortedBy k (x ∷ xs) h = elim (Bool-cases (digit shift x == k)) [
    | inl same ↦ rw same (All-bucket (λ y. x % m ≤ y % m) k xs h.0, bucket-SortedBy k xs h.1)
    | inr other ↦ rw other (bucket-SortedBy k xs h.1)
  ]

  one_digit :
      (k : ℕ) (xs : List ℕ)
      → All (λ x. digit shift x ≡ k) xs
      → SortedBy m xs
      → SortedBy (m * 256) xs
  one_digit k [] h s = tt
  one_digit k (x ∷ xs) h s = (
    All-map (λ y. (x % m ≤ y % m) × (digit shift y ≡ k)) (λ y. x % (m * 256) ≤ y % (m * 256)) xs
        (λ y p.
          rw (next_mod x, next_mod y)
            (let e : digit shift y ≡ digit shift x = p.1 ∙ sym h.0 in rw e (omega (arith, p.0))))
        (All-both _ _ xs s.0 h.1),
    one_digit k xs h.1 s.1,
  )

  buckets-SortedBy :
      (rounds k : ℕ) (xs : List ℕ) → SortedBy m xs → SortedBy (m * 256) (buckets shift rounds k xs)
  unfolding buckets
  buckets-SortedBy zero k xs h = tt
  buckets-SortedBy (suc rounds) k xs h =
      SortedBy-append (m * 256) (bucket shift k xs) (buckets shift rounds (suc k) xs)
        (one_digit k _ (bucket-digit k xs) (bucket-SortedBy k xs h))
        (buckets-SortedBy rounds (suc k) xs h)
        (All-map (λ x. digit shift x ≡ k) _ _
          (λ x e.
            All-map (λ y. suc k ≤ digit shift y) _ _
              (λ y f.
                rw (next_mod x, next_mod y)
                  (digit_order (digit shift x) (digit shift y) (x % m) (y % m) (omega arith)
                    (mod-lt x pos)))
              (buckets-digit rounds (suc k) xs))
          (bucket-digit k xs))

  -- Nothing is lost.
  elem-bucket :
      (a k : ℕ) (xs : List ℕ) → elem a (bucket shift k xs) ≡ ((digit shift a == k) && elem a xs)
  unfolding bucket
  elem-bucket a k [] = ground arith
  elem-bucket a k (x ∷ xs) =
      let rest = elem-bucket a k xs in
      elim (Bool-cases (a == x)) [
        | inl same ↦
            let e : a ≡ x = ground arith in
            let f : (digit shift a == k) ≡ (digit shift x == k) = ap (λ n. digit shift n == k) e in
            elim (Bool-cases (digit shift x == k)) [
              | inl here ↦ rw here (rw (same, f, here) refl)
              | inr other ↦ rw other (rest ∙ rw (same, f, other) refl)
            ]
        | inr differ ↦ elim (Bool-cases (digit shift x == k)) [
          | inl here ↦ rw here (rw differ rest)
          | inr other ↦ rw other (rw differ rest)
        ]
      ]

  elem-append : (a : ℕ) (xs ys : List ℕ) → elem a (xs ++ ys) ≡ (elem a xs || elem a ys)
  elem-append a [] ys = refl
  elem-append a (x ∷ xs) ys = ground (arith, elem-append a xs ys)

  elem-buckets :
      (a rounds k : ℕ) (xs : List ℕ)
      → elem a (buckets shift rounds k xs)
        ≡ (leb k (digit shift a) && ltb (digit shift a) (k + rounds) && elem a xs)
  unfolding buckets
  elem-buckets a zero k xs = ground arith
  elem-buckets a (suc rounds) k xs = ground (
    arith,
    elem-append a (bucket shift k xs) (buckets shift rounds (suc k) xs),
    elem-bucket a k xs,
    elem-buckets a rounds (suc k) xs,
  )

  -- A pass that is skipped.
  skip-SortedBy :
      (xs : List ℕ) → All (λ x. x % (m * 256) ≡ x % m) xs → SortedBy m xs → SortedBy (m * 256) xs
  skip-SortedBy [] h s = tt
  skip-SortedBy (x ∷ xs) h s = (
    All-map (λ y. (x % m ≤ y % m) × (y % (m * 256) ≡ y % m)) (λ y. x % (m * 256) ≤ y % (m * 256)) xs
        (λ y p. rw (h.0, p.1) p.0) (All-both _ _ xs s.0 h.1),
    skip-SortedBy xs h.1 s.1,
  )

  -- What a round of the loop leaves to the next one.
  pub record Round (P : ℕ → Type 0) (rounds skip_to : ℕ) (data_v swap_v : List ℕ) : Type 0 where
    pub data_v' : List ℕ
    pub swap_v' : List ℕ
    pub runs :
        radix_loop (suc rounds) skip_to shift data_v swap_v
        ≡ radix_loop rounds skip_to (shift + 8) data_v' swap_v'
    pub same_size : length data_v' ≡ length swap_v'
    pub sorted : SortedBy (m * 256) data_v'
    pub members : (a : ℕ) → elem a data_v' ≡ elem a data_v
    pub size_kept : length data_v' ≡ length data_v
    pub kept : All P data_v'

  pub one_pass :
      (P : ℕ → Type 0) (rounds skip_to : ℕ) (data_v swap_v : List ℕ)
      → length data_v ≡ length swap_v
      → SortedBy m data_v
      → All P data_v
      → ((leb skip_to shift && ltb shift 40) ≡ true → (x : ℕ) → P x → x % (m * 256) ≡ x % m)
      → Round P rounds skip_to data_v swap_v
  unfolding radix_loop
  one_pass P rounds skip_to data_v swap_v size sorted fits skips =
      elim (Bool-cases (leb skip_to shift && ltb shift 40)) [
        | inl skipped ↦ record {
          data_v' = data_v;
          swap_v' = swap_v;
          runs = rw (skipped, radix_loop) refl;
          same_size = size;
          sorted = skip-SortedBy data_v (All-map P _ data_v (skips skipped) fits) sorted;
          members = λ a. refl;
          size_kept = refl;
          kept = fits;
        }
        | inr done ↦ record {
          data_v' = buckets shift 256 0 data_v;
          swap_v' = data_v;
          runs = rw (done, radix_loop) (rw (countsort-buckets shift data_v swap_v size) refl);
          same_size = length-all_buckets shift data_v;
          sorted = buckets-SortedBy 256 0 data_v sorted;
          members = λ a. elem-buckets a 256 0 data_v ∙ ground arith;
          size_kept = length-all_buckets shift data_v;
          kept = All-buckets P 256 0 data_v fits;
        }
      ]
