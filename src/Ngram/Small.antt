-- ===== src/Ngram/Small.antt =====
-- The ngrams that the generators of libursa/Utils.cpp give have 24 bits.
use ursadb.Prelude.{
  ℕ, zero, suc, ◌+◌, ◌*◌, ◌/◌, ◌%◌, ◌^◌, ◌<◌, ◌≡◌, List, [], ◌∷◌, ◌==◌, leb, ltb, if◌then◌else◌,
  arith, length, All, Bool-cases, inl, inr, Option-cases,
}
use Prim.Native.Nat.{bit_xor, digits, differ, bit_xor-bitwise}
use ursadb.Core.{IndexType, gram3, text4, hash4, wide8, num_trigrams}
use ursadb.Codec.Encoding.{IsByte}
use ursadb.Ngram.Generators.{
  get_b64_value, trigrams_loop, gen_trigrams, push_b64, b64grams_loop, gen_b64grams, wide_loop,
  gen_wide_b64grams, h4grams_loop, gen_h4grams, get_generator_for,
}

differ_small : (x y : ℕ) → x < 2 → y < 2 → differ x y < 2
differ_small zero y hx hy = hy
differ_small (suc x) zero hx hy = hx
differ_small (suc x) (suc y) hx hy = differ_small x y (omega arith) (omega arith)

xor_digits_small : (n k a b : ℕ) → a < 2 ^ k → b < 2 ^ k → digits (λ d. d) differ n a b < 2 ^ k
xor_digits_small zero k a b ha hb = hb
xor_digits_small (suc n) k zero b ha hb = hb
xor_digits_small (suc n) zero (suc a) b ha hb = absurd (omega arith)
xor_digits_small (suc n) (suc k) (suc a) b ha hb =
    let p : 2 ^ suc k ≡ 2 * 2 ^ k = omega arith in
    omega (
      arith,
      xor_digits_small n k (suc a / 2) (b / 2) (omega arith) (omega arith),
      differ_small (suc a % 2) (b % 2) (omega arith) (omega arith),
    )

xor_small : (k a b : ℕ) → a < 2 ^ k → b < 2 ^ k → bit_xor a b < 2 ^ k
xor_small k a b ha hb = rw (bit_xor-bitwise a b) (xor_digits_small a k a b ha hb)

abbrev pub IsGram : ℕ → Type 0
IsGram t = t < num_trigrams

trigrams_loop-small :
    (gram : ℕ) (mem : List ℕ) → All IsByte mem → All IsGram (trigrams_loop gram mem)
unfolding trigrams_loop
trigrams_loop-small gram [] h = tt
trigrams_loop-small gram (b ∷ mem) h =
    (omega arith, trigrams_loop-small (gram % 2 ^ 16 * 2 ^ 8 + b) mem h.1)

b64grams_loop-small : (gram good : ℕ) (mem : List ℕ) → All IsGram (b64grams_loop gram good mem)
unfolding b64grams_loop
b64grams_loop-small gram good [] = tt
b64grams_loop-small gram good (b ∷ mem) = elim (Option-cases (get_b64_value b)) [
  | inl away ↦ rw (away, b64grams_loop) (b64grams_loop-small gram 0 mem)
  | inr (next, e) ↦
      let rest = b64grams_loop-small (push_b64 gram next) (good + 1) mem in
      elim (Bool-cases (leb 4 (good + 1))) [
        | inl long ↦ rw (e, b64grams_loop) (rw long (omega arith, rest))
        | inr short ↦ rw (e, b64grams_loop) (rw short rest)
      ]
]

wide_loop-small :
    (gram good : ℕ) (mem : List ℕ) → IsGram gram → All IsGram (wide_loop gram good mem)
unfolding wide_loop
wide_loop-small gram good [] g = tt
wide_loop-small gram good (b ∷ mem) g = elim (Bool-cases (good % 2 == 1)) [
  | inl odd ↦
      let good' = if b == 0 then good + 1 else 0 in
      let rest = wide_loop-small gram good' mem g in
      elim (Bool-cases (leb 8 good')) [
        | inl long ↦ rw (odd, wide_loop) (rw long (g, rest))
        | inr short ↦ rw (odd, wide_loop) (rw short rest)
      ]
  | inr even ↦ elim (Option-cases (get_b64_value b)) [
    | inl away ↦ rw (even, away, wide_loop) (wide_loop-small gram 0 mem g)
    | inr (next, e) ↦
        rw (even, e, wide_loop) (wide_loop-small (push_b64 gram next) (good + 1) mem (omega arith))
  ]
]

h4grams_loop-small :
    (gram offset : ℕ) (mem : List ℕ) → All IsByte mem → All IsGram (h4grams_loop gram offset mem)
unfolding h4grams_loop
h4grams_loop-small gram offset [] h = tt
h4grams_loop-small gram offset (b ∷ mem) h =
    let next = gram % 2 ^ 24 * 2 ^ 8 + b in
    let rest = h4grams_loop-small next (offset + 1) mem h.1 in
    elim (Bool-cases (leb 3 offset)) [
      | inl long ↦
          rw long
            (xor_small 24 (next / 2 ^ 8 % 2 ^ 24) (next % 2 ^ 24) (omega arith) (omega arith), rest)
      | inr short ↦ rw short rest
    ]

-- Every ngram is below NUM_TRIGRAMS.
pub get_generator_for-small :
    (type : IndexType) (mem : List ℕ) → All IsByte mem → All IsGram (get_generator_for type mem)
unfolding get_generator_for gen_trigrams gen_b64grams gen_h4grams gen_wide_b64grams
get_generator_for-small gram3 (a ∷ b ∷ c ∷ mem) h =
    trigrams_loop-small (a * 2 ^ 8 + b) (c ∷ mem) h.1.1
get_generator_for-small gram3 [] h = tt
get_generator_for-small gram3 (a ∷ []) h = tt
get_generator_for-small gram3 (a ∷ b ∷ []) h = tt
get_generator_for-small text4 mem h = elim (Bool-cases (ltb (length mem) 4)) [
  | inl short ↦ rw short tt
  | inr long ↦ rw long (b64grams_loop-small 0 0 mem)
]
get_generator_for-small hash4 mem h = elim (Bool-cases (ltb (length mem) 4)) [
  | inl short ↦ rw short tt
  | inr long ↦ rw long (h4grams_loop-small 0 0 mem h)
]
get_generator_for-small wide8 mem h = elim (Bool-cases (ltb (length mem) 8)) [
  | inl short ↦ rw short tt
  | inr long ↦ rw long (wide_loop-small 0 0 mem (omega arith))
]
