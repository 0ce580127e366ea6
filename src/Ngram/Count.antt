-- ===== src/Ngram/Count.antt =====
-- How many ngrams the generators of libursa/Utils.cpp give for a file.
use ursadb.Prelude.{
  ℕ, ◌+◌, ◌-◌, ◌*◌, ◌%◌, ◌^◌, ◌≤◌, ◌<◌, ◌≡◌, List, [], ◌∷◌, ◌==◌, leb, ltb, if◌then◌else◌, arith,
  length, Bool-cases, inl, inr, Option-cases,
}
use ursadb.Core.{IndexType, gram3, text4, hash4, wide8}
use ursadb.Ngram.Generators.{
  get_b64_value, trigrams_loop, gen_trigrams, push_b64, b64grams_loop, gen_b64grams, wide_loop,
  gen_wide_b64grams, h4grams_loop, gen_h4grams, get_generator_for,
}

trigrams_loop-count : (gram : ℕ) (mem : List ℕ) → length (trigrams_loop gram mem) ≡ length mem
unfolding trigrams_loop
trigrams_loop-count gram [] = omega arith
trigrams_loop-count gram (b ∷ mem) =
    omega (arith, trigrams_loop-count (gram % 2 ^ 16 * 2 ^ 8 + b) mem)

-- Nothing comes before the third byte behind `good_run` good ones.
b64grams_loop-count :
    (gram good : ℕ) (mem : List ℕ) → length (b64grams_loop gram good mem) ≤ length mem - (3 - good)
unfolding b64grams_loop
b64grams_loop-count gram good [] = omega arith
b64grams_loop-count gram good (b ∷ mem) = elim (Option-cases (get_b64_value b)) [
  | inl away ↦ rw (away, b64grams_loop) (omega (arith, b64grams_loop-count gram 0 mem))
  | inr (next, e) ↦
      let rest = b64grams_loop-count (push_b64 gram next) (good + 1) mem in
      elim (Bool-cases (leb 4 (good + 1))) [
        | inl long ↦
            let le : 4 ≤ good + 1 = ground arith in
            rw (e, b64grams_loop) (rw long (omega (arith, rest)))
        | inr short ↦
            let le : good + 1 < 4 = ground arith in
            rw (e, b64grams_loop) (rw short (omega (arith, rest)))
      ]
]

wide_loop-count :
    (gram good : ℕ) (mem : List ℕ) → length (wide_loop gram good mem) ≤ length mem - (7 - good)
unfolding wide_loop
wide_loop-count gram good [] = omega arith
wide_loop-count gram good (b ∷ mem) = elim (Bool-cases (good % 2 == 1)) [
  | inl odd ↦
      let good' = if b == 0 then good + 1 else 0 in
      let rest = wide_loop-count gram good' mem in
      let step : good' ≤ good + 1 = ground arith in
      elim (Bool-cases (leb 8 good')) [
        | inl long ↦
            let le : 8 ≤ good' = ground arith in
            rw (odd, wide_loop) (rw long (omega (arith, rest, step, le)))
        | inr short ↦ rw (odd, wide_loop) (rw short (omega (arith, rest, step)))
      ]
  | inr even ↦ elim (Option-cases (get_b64_value b)) [
    | inl away ↦ rw (even, away, wide_loop) (omega (arith, wide_loop-count gram 0 mem))
    | inr (next, e) ↦
        rw (even, e, wide_loop) (omega (arith, wide_loop-count (push_b64 gram next) (good + 1) mem))
  ]
]

h4grams_loop-count :
    (gram offset : ℕ) (mem : List ℕ)
    → length (h4grams_loop gram offset mem) ≤ length mem - (3 - offset)
unfolding h4grams_loop
h4grams_loop-count gram offset [] = omega arith
h4grams_loop-count gram offset (b ∷ mem) =
    let rest = h4grams_loop-count (gram % 2 ^ 24 * 2 ^ 8 + b) (offset + 1) mem in
    elim (Bool-cases (leb 3 offset)) [
      | inl long ↦ let le : 3 ≤ offset = ground arith in rw long (omega (arith, rest))
      | inr short ↦ let le : offset < 3 = ground arith in rw short (omega (arith, rest))
    ]

-- Two less than the bytes of the file, at most.
pub get_generator_for-count :
    (type : IndexType) (mem : List ℕ) → length (get_generator_for type mem) ≤ length mem - 2
unfolding get_generator_for gen_trigrams gen_b64grams gen_h4grams gen_wide_b64grams
get_generator_for-count gram3 (a ∷ b ∷ c ∷ mem) =
    omega (arith, trigrams_loop-count (a * 2 ^ 8 + b) (c ∷ mem))
get_generator_for-count gram3 [] = omega arith
get_generator_for-count gram3 (a ∷ []) = omega arith
get_generator_for-count gram3 (a ∷ b ∷ []) = omega arith
get_generator_for-count text4 mem = elim (Bool-cases (ltb (length mem) 4)) [
  | inl short ↦ rw short (omega arith)
  | inr long ↦ rw long (omega (arith, b64grams_loop-count 0 0 mem))
]
get_generator_for-count hash4 mem = elim (Bool-cases (ltb (length mem) 4)) [
  | inl short ↦ rw short (omega arith)
  | inr long ↦ rw long (omega (arith, h4grams_loop-count 0 0 mem))
]
get_generator_for-count wide8 mem = elim (Bool-cases (ltb (length mem) 8)) [
  | inl short ↦ rw short (omega arith)
  | inr long ↦ rw long (omega (arith, wide_loop-count 0 0 mem))
]
