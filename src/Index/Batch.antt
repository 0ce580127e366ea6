-- ===== src/Index/Batch.antt =====
-- `find_max_batch` of libursa/OnDiskIndex.cpp: how many ngrams a merge reads at once.
use ursadb.Prelude.{
  ℕ, zero, suc, ◌+◌, ◌-◌, ◌^◌, ◌≤◌, ◌<◌, ◌≡◌, ◌⊎◌, ◌↔◌, refl, true, false, List, [], ◌∷◌, ltb, leb,
  u64, arith, inl, inr, Bool-cases,
}
use mathlib.Core.Path.{subst}
use ursadb.Core.{num_trigrams}
use ursadb.Index.File.{OnDiskIndex}

-- An index of a merge, the number of the files of its dataset, and the array of its offsets.
pub record IndexMergeHelper : Type 0 where
  pub index : OnDiskIndex
  pub file_count : ℕ
  pub run_offset_cache : ℕ → ℕ

-- `run(gram, count).size()`, where the offsets may stand in any order.
unfoldable pub run_size : IndexMergeHelper → ℕ → ℕ → ℕ
run_size ndx gram count =
    u64 (ndx.run_offset_cache (gram + count) + (2 ^ 64 - u64 (ndx.run_offset_cache gram)))

-- The sum of the sizes, as `batch_bytes +=` counts it.
unfoldable pub batch_bytes : List IndexMergeHelper → ℕ → ℕ → ℕ
unfolding run_size
batch_bytes [] trigram i = 0
batch_bytes (ndx ∷ indexes) trigram i = u64 (run_size ndx trigram i + batch_bytes indexes trigram i)

-- The loop from `i` on, with the number of its rounds that are left.
unfoldable pub batch_loop : ℕ → List IndexMergeHelper → ℕ → ℕ → ℕ → ℕ
batch_loop zero indexes trigram max_bytes i = num_trigrams - trigram
batch_loop (suc rounds) indexes trigram max_bytes i =
    elim (ltb max_bytes (batch_bytes indexes trigram i)) [
      | true ↦ i - 1
      | false ↦ batch_loop rounds indexes trigram max_bytes (i + 1)
    ]

unfoldable pub find_max_batch : List IndexMergeHelper → ℕ → ℕ → ℕ
find_max_batch indexes trigram max_bytes =
    batch_loop (num_trigrams - trigram - 1) indexes trigram max_bytes 1

no_bytes : (indexes : List IndexMergeHelper) (trigram : ℕ) → batch_bytes indexes trigram 0 ≡ 0
unfolding batch_bytes run_size
no_bytes [] trigram = refl
no_bytes (ndx ∷ indexes) trigram =
    let same : trigram + 0 ≡ trigram = omega arith in
    rw same (omega (arith, no_bytes indexes trigram))

-- The batch `n` fits, with all smaller ones, and the next one does not.
abbrev IsGreatest : List IndexMergeHelper → ℕ → ℕ → ℕ → ℕ → Type 0
IsGreatest indexes trigram max_bytes left n =
    ((j : ℕ) → j ≤ n → j < left → batch_bytes indexes trigram j ≤ max_bytes)
    × ((n ≡ left) ⊎ ((n + 1 < left) × (max_bytes < batch_bytes indexes trigram (n + 1))))

batch_loop-IsGreatest :
    (rounds : ℕ) (indexes : List IndexMergeHelper) (trigram max_bytes i left : ℕ)
    → i + 1 + rounds ≡ left
    → ((j : ℕ) → j ≤ i → batch_bytes indexes trigram j ≤ max_bytes)
    → num_trigrams - trigram ≡ left
    → IsGreatest indexes trigram max_bytes left
        (batch_loop rounds indexes trigram max_bytes (i + 1))
unfolding batch_loop
batch_loop-IsGreatest zero indexes trigram max_bytes i left e fits ends =
    (λ j le below. fits j (omega arith), inl ends)
batch_loop-IsGreatest (suc rounds) indexes trigram max_bytes i left e fits ends =
    elim (Bool-cases (ltb max_bytes (batch_bytes indexes trigram (i + 1)))) [
      | inl full ↦
          let back : i + 1 - 1 ≡ i = omega arith in
          rw (full, batch_loop)
            (rw back (λ j le below. fits j le, inr (omega arith, ground (arith, full))))
      | inr more ↦
          let small : batch_bytes indexes trigram (i + 1) ≤ max_bytes = ground (arith, more) in
          rw (more, batch_loop)
            (batch_loop-IsGreatest rounds indexes trigram max_bytes (i + 1) left (omega arith)
              (below_next i (λ j. batch_bytes indexes trigram j ≤ max_bytes) fits small) ends)
    ]
  where
    below_next :
        (i : ℕ) (P : ℕ → Type 0) → ((j : ℕ) → j ≤ i → P j) → P (i + 1) → (j : ℕ) → j ≤ i + 1 → P j
    below_next i P before here j le = elim (Bool-cases (leb j i)) [
      | inl old ↦ before j (ground arith)
      | inr new ↦ let e : i + 1 ≡ j = ground arith in subst P e here
    ]

-- Where ngrams are left from `trigram` on, the batch that is found, and every smaller one, has at most
-- `max_bytes` bytes, counted modulo 2 ^ 64, unless it is all that is left; and it is all that is left,
-- or the batch that is larger by one is not, and has more than `max_bytes` bytes.
pub find_max_batch-greatest :
    (indexes : List IndexMergeHelper) (trigram max_bytes : ℕ)
    → trigram < num_trigrams
    → ((j : ℕ)
        → j ≤ find_max_batch indexes trigram max_bytes
        → j < num_trigrams - trigram
        → batch_bytes indexes trigram j ≤ max_bytes)
      × ((find_max_batch indexes trigram max_bytes ≡ num_trigrams - trigram)
          ⊎ ((find_max_batch indexes trigram max_bytes + 1 < num_trigrams - trigram)
              × (max_bytes
                  < batch_bytes indexes trigram (find_max_batch indexes trigram max_bytes + 1))))
unfolding find_max_batch
find_max_batch-greatest indexes trigram max_bytes left =
    batch_loop-IsGreatest (num_trigrams - trigram - 1) indexes trigram max_bytes 0
      (num_trigrams - trigram) (omega arith)
      (λ j le.
        let e : 0 ≡ j = omega arith in
        subst (λ n. batch_bytes indexes trigram n ≤ max_bytes) e
          (omega (arith, no_bytes indexes trigram)))
      refl

-- All that is left is read at once if and only if every smaller batch fits, however many bytes all
-- that is left has: the loop does not look at them.
pub find_max_batch_unchecked :
    (indexes : List IndexMergeHelper) (trigram max_bytes : ℕ)
    → trigram < num_trigrams
    → (find_max_batch indexes trigram max_bytes ≡ num_trigrams - trigram)
      ↔ ((j : ℕ) → j < num_trigrams - trigram → batch_bytes indexes trigram j ≤ max_bytes)
find_max_batch_unchecked indexes trigram max_bytes left =
    let (fits, ends) = find_max_batch-greatest indexes trigram max_bytes left in
    (
      λ all j below. fits j (omega (arith, all)) below,
      λ fit. elim ends [
        | inl all ↦ all
        | inr (before, large) ↦
            absurd (omega (arith, large, fit (find_max_batch indexes trigram max_bytes + 1) before))
      ],
    )

batch_loop-le :
    (rounds : ℕ) (indexes : List IndexMergeHelper) (trigram max_bytes i : ℕ)
    → i + rounds ≤ num_trigrams - trigram
    → batch_loop rounds indexes trigram max_bytes i ≤ num_trigrams - trigram
unfolding batch_loop
batch_loop-le zero indexes trigram max_bytes i le = omega arith
batch_loop-le (suc rounds) indexes trigram max_bytes i le =
    elim (Bool-cases (ltb max_bytes (batch_bytes indexes trigram i))) [
      | inl full ↦ rw (full, batch_loop) (omega arith)
      | inr more ↦
          rw (more, batch_loop)
            (batch_loop-le rounds indexes trigram max_bytes (i + 1) (omega arith))
    ]

-- A batch does not go past the last ngram.
pub find_max_batch-le :
    (indexes : List IndexMergeHelper) (trigram max_bytes : ℕ)
    → trigram < num_trigrams
    → find_max_batch indexes trigram max_bytes ≤ num_trigrams - trigram
unfolding find_max_batch
find_max_batch-le indexes trigram max_bytes left =
    batch_loop-le (num_trigrams - trigram - 1) indexes trigram max_bytes 1 (omega arith)
