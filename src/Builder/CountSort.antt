-- ===== src/Builder/CountSort.antt =====
-- `countsort` of libursa/FlatIndexBuilder.cpp is a stable bucket sort: the numbers with the digit 0 in
-- their order, those with the digit 1, and so on.
use ursadb.Prelude.{
  ℕ, zero, suc, ◌+◌, ◌-◌, ◌≤◌, ◌<◌, ◌≡◌, refl, sym, ap, ◌∙◌, true, false, List, [], ◌∷◌, ◌++◌, ◌==◌,
  if◌then◌else◌, leb, ltb, ◌&&◌, arith, length, length-append, ok, Bool-cases, inl, inr,
}
use mathlib.Core.List.{reverse, reverse_aux, reverse-reverse}
use ursadb.Builder.Radix.{
  update, digit, count_loop, sum_loop, place_loop, cells, array_of, countsort,
}
use ursadb.Builder.Buckets.{
  size, start, bucket, buckets, start-zero, start-suc, size-here, size-away, bucket-here,
  bucket-away, count_loop_lem, sum_loop_lem, start_mono,
}

module _ (shift : ℕ) where
  -- Two places in the buckets of two digits differ.
  places_differ :
      (k d i j : ℕ) (xs : List ℕ)
      → (d == k) ≡ false
      → i < size shift k xs
      → j < size shift d xs
      → (start shift k xs + i == start shift d xs + j) ≡ false
  places_differ k d i j xs other hi hj = elim (Bool-cases (ltb k d)) [
    | inl below ↦ ground (arith, start_mono shift k d xs (ground arith))
    | inr above ↦ ground (arith, start_mono shift d k xs (ground arith))
  ]

  -- Of the data, the front `xs` (its last number first) is left, and `ys` has been placed.
  record Placing (all : List ℕ) (count swap : ℕ → ℕ) (xs ys : List ℕ) : Type 0 where
    counts : (k : ℕ) → k < 256 → count k ≡ start shift k all + size shift k xs
    placed :
        (k j : ℕ)
        → k < 256
        → j < size shift k ys
        → swap (start shift k all + (size shift k xs + j)) ≡ array_of (bucket shift k ys) j
    whole : (k : ℕ) → size shift k xs + size shift k ys ≡ size shift k all

  place_step :
      (all : List ℕ) (count swap : ℕ → ℕ) (x : ℕ) (xs ys : List ℕ)
      → Placing all count swap (x ∷ xs) ys
      → Placing all
          (update count (digit shift x) (count (digit shift x) - 1))
          (update swap (count (digit shift x) - 1) x)
          xs
          (x ∷ ys)
  unfolding array_of
  place_step all count swap x xs ys h = record { counts = counts; placed = placed; whole = whole }
    where
      d : ℕ
      d = digit shift x

      own : (d == d) ≡ true
      own = ground arith

      place : count d - 1 ≡ start shift d all + size shift d xs
      place = omega (arith, h.counts d (omega arith), size-here shift d x xs own)

      room : size shift d xs < size shift d all
      room = omega (arith, h.whole d, size-here shift d x xs own)

      counts :
          (k : ℕ) → k < 256 → update count d (count d - 1) k ≡ start shift k all + size shift k xs
      counts k lt = elim (Bool-cases (k == d)) [
        | inl same ↦ let e : k ≡ d = ground arith in rw (same, e) place
        | inr other ↦ rw other (omega (arith, h.counts k lt, size-away shift k x xs (ground arith)))
      ]

      whole : (k : ℕ) → size shift k xs + size shift k (x ∷ ys) ≡ size shift k all
      whole k = elim (Bool-cases (d == k)) [
        | inl same ↦
            omega (arith, h.whole k, size-here shift k x xs same, size-here shift k x ys same)
        | inr other ↦
            omega (arith, h.whole k, size-away shift k x xs other, size-away shift k x ys other)
      ]

      here : (k j : ℕ) → Type 0
      here k j =
          update swap (count d - 1) x (start shift k all + (size shift k xs + j))
          ≡ array_of (bucket shift k (x ∷ ys)) j

      elsewhere : (k j : ℕ) → k < 256 → j < size shift k (x ∷ ys) → (d == k) ≡ false → here k j
      elsewhere k j lt inside other =
          let small = size-away shift k x ys other in
          let gone = size-away shift k x xs other in
          let apart =
            places_differ k d (size shift k xs + j) (size shift d xs) all other
              (omega (arith, h.whole k, small, gone)) room in
          let missed : (start shift k all + (size shift k xs + j) == count d - 1) ≡ false =
            ground (arith, place, apart) in
          let e : start shift k all + (size shift k xs + j)
              ≡ start shift k all + (size shift k (x ∷ xs) + j) =
            omega (arith, gone) in
          rw (missed, bucket-away shift k x ys other)
            (ap swap e ∙ h.placed k j lt (omega (arith, small)))

      behind : (k j : ℕ) → k < 256 → j < size shift k ys → (d == k) ≡ true → here k (suc j)
      behind k j lt inside same =
          let gone = size-here shift k x xs same in
          let f : d ≡ k = ground arith in
          let at : count d - 1 ≡ start shift k all + size shift k xs =
            place ∙ ap (λ n. start shift n all + size shift n xs) f in
          let missed : (start shift k all + (size shift k xs + suc j) == count d - 1) ≡ false =
            ground (arith, at) in
          let e : start shift k all + (size shift k xs + suc j)
              ≡ start shift k all + (size shift k (x ∷ xs) + j) =
            omega (arith, gone) in
          rw (missed, bucket-here shift k x ys same) (ap swap e ∙ h.placed k j lt inside)

      first : (k : ℕ) → k < 256 → (d == k) ≡ true → here k 0
      first k lt same =
          let f : d ≡ k = ground arith in
          let at : count d - 1 ≡ start shift k all + size shift k xs =
            place ∙ ap (λ n. start shift n all + size shift n xs) f in
          let hit : (start shift k all + (size shift k xs + 0) == count d - 1) ≡ true =
            ground (arith, at) in
          rw (hit, bucket-here shift k x ys same) refl

      placed : (k j : ℕ) → k < 256 → j < size shift k (x ∷ ys) → here k j
      placed k zero lt inside = elim (Bool-cases (d == k)) [
        | inl same ↦ first k lt same
        | inr other ↦ elsewhere k 0 lt inside other
      ]
      placed k (suc j) lt inside = elim (Bool-cases (d == k)) [
        | inl same ↦ behind k j lt (omega (arith, size-here shift k x ys same)) same
        | inr other ↦ elsewhere k (suc j) lt inside other
      ]

  place_loop-Placing :
      (all : List ℕ) (xs ys : List ℕ) (count swap : ℕ → ℕ)
      → Placing all count swap xs ys
      → (k j : ℕ) → k < 256
      → j < size shift k all
      → place_loop shift xs count swap (start shift k all + j)
        ≡ array_of (bucket shift k (reverse_aux xs ys)) j
  unfolding place_loop
  place_loop-Placing all [] ys count swap h k j lt inside =
      let none_left : size shift k [] ≡ 0 = unfold bucket in refl in
      let e : start shift k all + j ≡ start shift k all + (size shift k [] + j) =
        omega (arith, none_left) in
      ap swap e ∙ h.placed k j lt (omega (arith, h.whole k, none_left))
  place_loop-Placing all (x ∷ xs) ys count swap h k j lt inside =
      place_loop-Placing all xs (x ∷ ys) _ _ (place_step all count swap x xs ys h) k j lt inside

  -- Reading the cells of a bucket, and of all buckets.
  cells-bucket :
      (n i : ℕ) (array : ℕ → ℕ) (xs : List ℕ)
      → n ≡ length xs
      → ((j : ℕ) → j < n → array (i + j) ≡ array_of xs j)
      → cells n i array ≡ xs
  unfolding cells array_of
  cells-bucket zero i array [] e h = refl
  cells-bucket zero i array (x ∷ xs) e h = absurd (omega arith)
  cells-bucket (suc n) i array [] e h = absurd (omega arith)
  cells-bucket (suc n) i array (x ∷ xs) e h =
      let z : i + 0 ≡ i = omega arith in
      let first : array i ≡ x = rw z at (h 0 (omega arith)) in
      rw
        (
          first,
          cells-bucket n (suc i) array xs (omega arith) (λ j lt.
              let f : suc i + j ≡ i + suc j = omega arith in rw f (h (suc j) (omega arith))),
        )
        refl

  cells-append :
      (n m i : ℕ) (array : ℕ → ℕ) → cells (n + m) i array ≡ cells n i array ++ cells m (i + n) array
  unfolding cells
  cells-append zero m i array =
      let e : 0 + m ≡ m = omega arith in let f : i + 0 ≡ i = omega arith in rw (e, f) refl
  cells-append (suc n) m i array =
      let e : suc n + m ≡ suc (n + m) = omega arith in
      let f : i + suc n ≡ suc i + n = omega arith in rw (e, f, cells-append n m (suc i) array) refl

  cells-buckets :
      (all : List ℕ) (array : ℕ → ℕ)
      → ((k j : ℕ)
          → k < 256
          → j < size shift k all
          → array (start shift k all + j) ≡ array_of (bucket shift k all) j)
      → (rounds k : ℕ) → k + rounds ≤ 256
      → cells (length (buckets shift rounds k all)) (start shift k all) array
        ≡ buckets shift rounds k all
  unfolding buckets
  cells-buckets all array placed zero k le = unfold cells in refl
  cells-buckets all array placed (suc rounds) k le =
      let more = buckets shift rounds (suc k) all in
      let rest = cells-buckets all array placed rounds (suc k) (omega arith) in
      let here =
        cells-bucket (size shift k all) (start shift k all) array (bucket shift k all) refl
          (λ j lt. placed k j (omega arith) lt) in
      let next : start shift (suc k) all ≡ start shift k all + size shift k all =
        unfold start in refl in
      ap (λ n. cells n (start shift k all) array) (length-append (bucket shift k all) more)
      ∙ cells-append (size shift k all) (length more) (start shift k all) array
      ∙ rw here (ap (λ more'. bucket shift k all ++ more') (rw next at rest))

  -- Every number is in one of the buckets.
  length-buckets :
      (rounds k x : ℕ) (xs : List ℕ)
      → length (buckets shift rounds k (x ∷ xs))
        ≡ length (buckets shift rounds k xs)
          + (if leb k (digit shift x) && ltb (digit shift x) (k + rounds) then 1 else 0)
  unfolding buckets
  length-buckets zero k x xs = ground arith
  length-buckets (suc rounds) k x xs =
      let d = digit shift x in
      let rest = length-buckets rounds (suc k) x xs in
      let l1 = length-append (bucket shift k (x ∷ xs)) (buckets shift rounds (suc k) (x ∷ xs)) in
      let l2 = length-append (bucket shift k xs) (buckets shift rounds (suc k) xs) in
      elim (Bool-cases (d == k)) [
        | inl same ↦ ground (arith, rest, l1, l2, size-here shift k x xs same)
        | inr other ↦ ground (arith, rest, l1, l2, size-away shift k x xs other)
      ]

  no_bucket : (rounds k : ℕ) → buckets shift rounds k [] ≡ []
  unfolding buckets bucket
  no_bucket zero k = refl
  no_bucket (suc rounds) k = no_bucket rounds (suc k)

  pub length-all_buckets : (xs : List ℕ) → length (buckets shift 256 0 xs) ≡ length xs
  length-all_buckets [] = ap length (no_bucket 256 0)
  length-all_buckets (x ∷ xs) =
      let inside : leb 0 (digit shift x) && ltb (digit shift x) (0 + 256) ≡ true = ground arith in
      length-buckets 256 0 x xs ∙ rw inside (omega (arith, length-all_buckets xs))

  size-reverse_aux :
      (k : ℕ) (xs ys : List ℕ)
      → size shift k (reverse_aux xs ys) ≡ size shift k xs + size shift k ys
  size-reverse_aux k [] ys = let e : size shift k [] ≡ 0 = unfold bucket in refl in omega (arith, e)
  size-reverse_aux k (x ∷ xs) ys =
      let rest = size-reverse_aux k xs (x ∷ ys) in
      elim (Bool-cases (digit shift x == k)) [
        | inl same ↦ omega (arith, rest, size-here shift k x xs same, size-here shift k x ys same)
        | inr other ↦
            omega (arith, rest, size-away shift k x xs other, size-away shift k x ys other)
      ]

  -- `countsort` puts the buckets one behind the other, and hands the old numbers back as swap space.
  pub countsort-buckets :
      (data_v swap_v : List ℕ)
      → length data_v ≡ length swap_v
      → countsort data_v swap_v shift ≡ ok (buckets shift 256 0 data_v, data_v)
  unfolding countsort
  countsort-buckets data_v swap_v e =
      let count = sum_loop 255 1 (count_loop shift data_v (λ _. 0)) in
      let none : (k : ℕ) → size shift k [] ≡ 0 = λ k. unfold bucket in refl in
      let counted : (k : ℕ) → count_loop shift data_v (λ _. 0) k ≡ size shift k data_v =
        λ k. count_loop_lem shift data_v (λ _. 0) k ∙ omega arith in
      let first : start shift 1 data_v ≡ size shift 0 data_v = unfold start in omega arith in
      let summed : (k : ℕ) → k < 256 → count k ≡ start shift (suc k) data_v = λ k lt.
        sum_loop_lem shift 255 1 _ data_v (omega arith)
          (λ m below. let z : m ≡ 0 = omega arith in rw z (counted 0 ∙ sym first))
          (λ m above. counted m) k (omega arith) in
      let placing : Placing data_v count (array_of swap_v) (reverse data_v) [] = record {
        counts = λ k lt.
            omega
              (arith, summed k lt, start-suc shift k data_v, size-reverse_aux k data_v [], none k);
        placed = λ k j lt inside. absurd (omega (arith, none k));
        whole = λ k. omega (arith, size-reverse_aux k data_v [], none k);
      } in
      let swap = place_loop shift (reverse data_v) count (array_of swap_v) in
      let placed = place_loop-Placing data_v (reverse data_v) [] count (array_of swap_v) placing in
      let back : reverse_aux (reverse data_v) [] ≡ data_v = reverse-reverse data_v in
      let read =
        cells-buckets data_v swap
          (λ k j lt inside. placed k j lt inside ∙ ap (λ xs. array_of (bucket shift k xs) j) back)
          256 0 (omega arith) in
      let same_size : (length data_v == length swap_v) ≡ true = ground arith in
      rw same_size (
        ap (λ xs. ok (xs, data_v))
          (ap (λ n. cells n 0 swap) (sym (length-all_buckets data_v))
            ∙ ap (λ n. cells (length (buckets shift 256 0 data_v)) n swap)
                (sym (start-zero shift data_v))
            ∙ read))
