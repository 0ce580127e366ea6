-- ===== src/Builder/Sorted.antt =====
-- The result of `flat_radixsort` (libursa/FlatIndexBuilder.cpp) is the data in order.
use ursadb.Prelude.{
  leb→le, ℕ, zero, suc, ◌+◌, ◌*◌, ◌/◌, ◌%◌, ◌^◌, ◌≤◌, ◌<◌, ◌≡◌, refl, sym, ap, ◌∙◌, Bool, true,
  false, ◌&&◌, List, [], ◌∷◌, ◌==◌, leb, ltb, arith, length, All, elem, ok, u32, Bool-cases, inl,
  inr,
}
use ursadb.Builder.Radix.{count_bytes_loop, count_bytes, radix_loop, flat_radixsort, zeros}
use ursadb.Builder.RadixSort.{SortedBy, one_pass}

pub length-zeros : (n : ℕ) → length (zeros n) ≡ n
unfolding zeros
length-zeros zero = refl
length-zeros (suc n) = omega (arith, length-zeros n)

-- The loop counts the bytes that are not zero, and four rounds are enough for 32 bits.
count_bytes_loop_lem :
    (fuel n bytes : ℕ)
    → n < 256 ^ fuel
    → (c : ℕ) × (count_bytes_loop fuel n bytes ≡ bytes + c) × (c ≤ fuel) × (n < 256 ^ c)
unfolding count_bytes_loop
count_bytes_loop_lem zero n bytes h = (0, omega arith, omega arith, h)
count_bytes_loop_lem (suc fuel) n bytes h = elim (Bool-cases (n == 0)) [
  | inl done ↦ rw done (0, omega arith, omega arith, ground arith)
  | inr more ↦
      let p : 256 ^ suc fuel ≡ 256 * 256 ^ fuel = omega arith in
      let (c, e, le, small) = count_bytes_loop_lem fuel (n / 256) (bytes + 1) (omega arith) in
      let q : 256 ^ suc c ≡ 256 * 256 ^ c = omega arith in
      rw more (suc c, omega (arith, e), omega arith, omega arith)
]

-- A number has no bytes above those that `count_bytes` counts.
pub count_bytes_bound : (n : ℕ) → n < 2 ^ 32 → (count_bytes n ≤ 4) × (n < 256 ^ count_bytes n)
unfolding count_bytes
count_bytes_bound n h =
    let (c, e, le, small) = count_bytes_loop_lem 4 n 0 (omega arith) in
    let f : count_bytes_loop 4 n 0 ≡ c = omega (arith, e) in rw f (le, small)

-- The numbers that the builder sorts: a file id of at most `max_fileid` below an ngram.
abbrev pub IsPacked : ℕ → ℕ → Type 0
IsPacked max_fileid x = (x < 2 ^ 64) × (x % 2 ^ 40 ≤ max_fileid)

pow256_mono : (c n : ℕ) → c ≤ n → 256 ^ c ≤ 256 ^ n
pow256_mono c zero h = let e : c ≡ 0 = omega arith in rw e (omega arith)
pow256_mono c (suc n) h = elim (Bool-cases (c == suc n)) [
  | inl same ↦ let e : c ≡ suc n = ground arith in rw e (omega arith)
  | inr other ↦
      let p : 256 ^ suc n ≡ 256 * 256 ^ n = omega arith in
      omega (arith, pow256_mono c n (ground arith))
]

SortedBy-one : (xs : List ℕ) → SortedBy 1 xs
SortedBy-one [] = tt
SortedBy-one (x ∷ xs) = (all_zero xs, SortedBy-one xs)
  where
    all_zero : (ys : List ℕ) → All (λ y. x % 1 ≤ y % 1) ys
    all_zero [] = tt
    all_zero (y ∷ ys) = (omega arith, all_zero ys)

-- What a sort gives.
abbrev pub Sorts : ℕ → List ℕ → List ℕ → Type 0
Sorts max_fileid data_v sorted =
    SortedBy (2 ^ 64) sorted
    × ((a : ℕ) → elem a sorted ≡ elem a data_v)
    × (length sorted ≡ length data_v)
    × All (IsPacked max_fileid) sorted

-- The rounds that are left sort what is in order by the remainders modulo `m`.
abbrev Finishes : ℕ → ℕ → ℕ → ℕ → ℕ → Type 0
Finishes max_fileid skip_to rounds shift m =
    (data_v swap_v : List ℕ)
    → length data_v ≡ length swap_v
    → SortedBy m data_v
    → All (IsPacked max_fileid) data_v
    → (sorted : List ℕ) × (radix_loop rounds skip_to shift data_v swap_v ≡ ok sorted)
      × Sorts max_fileid data_v sorted

Finishes-zero : (max_fileid skip_to shift : ℕ) → Finishes max_fileid skip_to 0 shift (2 ^ 64)
unfolding radix_loop
Finishes-zero max_fileid skip_to shift data_v swap_v size sorted packed =
    (data_v, refl, (sorted, (λ a. refl), refl, packed))

Finishes-suc :
    (max_fileid skip_to rounds shift m : ℕ)
    → 2 ^ shift ≡ m
    → 0 < m
    → ((leb skip_to shift && ltb shift 40) ≡ true
        → (x : ℕ) → IsPacked max_fileid x
        → x % (m * 256) ≡ x % m)
    → Finishes max_fileid skip_to rounds (shift + 8) (m * 256)
    → Finishes max_fileid skip_to (suc rounds) shift m
Finishes-suc max_fileid skip_to rounds shift m power pos skips next data_v swap_v size sorted
      packed =
    let r =
      one_pass shift m power pos (IsPacked max_fileid) rounds skip_to data_v swap_v size sorted
        packed skips in
    let (final, ran, (order, members, size_kept, kept)) =
      next r.data_v' r.swap_v' r.same_size r.sorted r.kept in
    (final, r.runs ∙ ran, (order, (λ a. members a ∙ r.members a), size_kept ∙ r.size_kept, kept))

-- `c` bytes hold every file id.
module _ (max_fileid c : ℕ) (bound : max_fileid < 256 ^ c) where
  -- The file ids lie below the bytes that are skipped.
  skipped_small :
      (i x : ℕ) → leb (c * 8) (i * 8) ≡ true → IsPacked max_fileid x → x % 2 ^ 40 < 256 ^ i
  skipped_small i x h p =
      omega (arith, bound, leb→le _ _ h, pow256_mono c i (omega (arith, leb→le _ _ h)))

  left : (a b : Bool) → a && b ≡ true → a ≡ true
  left a b h = ground arith

  radix_loop-sorted : Finishes max_fileid (c * 8) 8 0 1
  radix_loop-sorted =
      step 7 0 1 refl (omega arith) (λ h x p. omega (arith, skipped_small 0 x (left _ _ h) p))
        (step 6 8 256 refl (omega arith) (λ h x p. omega (arith, skipped_small 1 x (left _ _ h) p))
          (step 5 16 (2 ^ 16) refl (omega arith)
            (λ h x p. omega (arith, skipped_small 2 x (left _ _ h) p))
            (step 4 24 (2 ^ 24) refl (omega arith)
              (λ h x p. omega (arith, skipped_small 3 x (left _ _ h) p))
              (step 3 32 (2 ^ 32) refl (omega arith)
                (λ h x p. omega (arith, skipped_small 4 x (left _ _ h) p))
                (step 2 40 (2 ^ 40) refl (omega arith) (λ h x p. absurd (never _ h))
                  (step 1 48 (2 ^ 48) refl (omega arith) (λ h x p. absurd (never _ h))
                    (step 0 56 (2 ^ 56) refl (omega arith) (λ h x p. absurd (never _ h))
                      (Finishes-zero max_fileid (c * 8) 64))))))))
    where
      never : (a : Bool) → a && false ≡ true → ⊥
      never a h = ground arith

      step :
          (rounds shift m : ℕ)
          → 2 ^ shift ≡ m
          → 0 < m
          → ((leb (c * 8) shift && ltb shift 40) ≡ true
              → (x : ℕ) → IsPacked max_fileid x
              → x % (m * 256) ≡ x % m)
          → Finishes max_fileid (c * 8) rounds (shift + 8) (m * 256)
          → Finishes max_fileid (c * 8) (suc rounds) shift m
      step = Finishes-suc max_fileid (c * 8)

flat_radixsort-loop :
    (data_v : List ℕ) (n : ℕ)
    → u32 n ≡ n
    → flat_radixsort data_v n ≡ radix_loop 8 (count_bytes n * 8) 0 data_v (zeros (length data_v))
unfolding flat_radixsort
flat_radixsort-loop data_v n e =
    ap (λ m. radix_loop 8 (count_bytes m * 8) 0 data_v (zeros (length data_v))) e

-- The sort keeps the numbers and puts them in order, where no file id is above `max_fileid`.
pub flat_radixsort-sorted :
    (max_fileid : ℕ) (data_v : List ℕ)
    → max_fileid < 2 ^ 32
    → All (IsPacked max_fileid) data_v
    → (sorted : List ℕ) × (flat_radixsort data_v max_fileid ≡ ok sorted)
      × Sorts max_fileid data_v sorted
flat_radixsort-sorted max_fileid data_v small packed =
    let e : u32 max_fileid ≡ max_fileid = omega arith in
    let bound = count_bytes_bound max_fileid small in
    let (sorted, ran, sorts) =
      radix_loop-sorted max_fileid (count_bytes max_fileid) bound.1 data_v (zeros (length data_v))
        (sym (length-zeros (length data_v))) (SortedBy-one data_v) packed in
    (sorted, flat_radixsort-loop data_v max_fileid e ∙ ran, sorts)
