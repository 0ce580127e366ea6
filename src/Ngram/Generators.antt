-- ===== src/Ngram/Generators.antt =====
-- The four ngram generators of libursa/Utils.cpp. A file is the list of its bytes; the result is
-- the list of the calls of `cb`, in their order. The sum stands for `|` where the bits are disjoint.
use ursadb.Prelude.{
  ℕ, ◌+◌, ◌-◌, ◌*◌, ◌/◌, ◌%◌, ◌^◌, true, false, ◌&&◌, List, [], ◌∷◌, ltb, leb, ◌==◌, if◌then◌else◌,
  Option, none, some, length,
}
use Prim.Native.Nat.{bit_xor}
use ursadb.Core.{IndexType, gram3, text4, hash4, wide8}

-- `none` for -1.
unfoldable pub get_b64_value : ℕ → Option ℕ
get_b64_value character =
    if leb 65 character && leb character 90
    then some (character - 65)
    else if leb 97 character && leb character 122
    then some (character - 97 + 26)
    else if leb 48 character && leb character 57
    then some (character - 48 + 2 * 26)
    else if character == 32
    then some (2 * 26 + 10)
    else if character == 10
    then some (2 * 26 + 10 + 1)
    else none

-- The loop of `gen_trigrams` from an offset on.
unfoldable pub trigrams_loop : ℕ → List ℕ → List ℕ
trigrams_loop gram [] = []
trigrams_loop gram (b ∷ mem) = let next = gram % 2 ^ 16 * 2 ^ 8 + b in next ∷ trigrams_loop next mem

unfoldable pub gen_trigrams : List ℕ → List ℕ
unfolding trigrams_loop
gen_trigrams (a ∷ b ∷ c ∷ mem) = trigrams_loop (a * 2 ^ 8 + b) (c ∷ mem)
gen_trigrams mem = []

-- `gram4 = ((gram4 << 6U) + next) & 0xFFFFFFU`
abbrev pub push_b64 : ℕ → ℕ → ℕ
push_b64 gram4 next = (gram4 * 2 ^ 6 + next) % 2 ^ 24

unfoldable pub b64grams_loop : ℕ → ℕ → List ℕ → List ℕ
b64grams_loop gram4 good_run [] = []
b64grams_loop gram4 good_run (b ∷ mem) = elim (get_b64_value b) [
  | none ↦ b64grams_loop gram4 0 mem
  | some next ↦
      let rest = b64grams_loop (push_b64 gram4 next) (good_run + 1) mem in
      if leb 4 (good_run + 1) then push_b64 gram4 next ∷ rest else rest
]

unfoldable pub gen_b64grams : List ℕ → List ℕ
unfolding b64grams_loop
gen_b64grams mem = if ltb (length mem) 4 then [] else b64grams_loop 0 0 mem

unfoldable pub wide_loop : ℕ → ℕ → List ℕ → List ℕ
wide_loop gram4 good_run [] = []
wide_loop gram4 good_run (b ∷ mem) = elim (good_run % 2 == 1) [
  | true ↦
      let good_run' = if b == 0 then good_run + 1 else 0 in
      let rest = wide_loop gram4 good_run' mem in if leb 8 good_run' then gram4 ∷ rest else rest
  | false ↦ elim (get_b64_value b) [
    | none ↦ wide_loop gram4 0 mem
    | some next ↦ wide_loop (push_b64 gram4 next) (good_run + 1) mem
  ]
]

unfoldable pub gen_wide_b64grams : List ℕ → List ℕ
unfolding wide_loop
gen_wide_b64grams mem = if ltb (length mem) 8 then [] else wide_loop 0 0 mem

-- `((gram4 >> 8U) & 0xFFFFFFU) ^ (gram4 & 0xFFFFFFU)`
abbrev pub hash_gram : ℕ → ℕ
hash_gram gram4 = bit_xor (gram4 / 2 ^ 8 % 2 ^ 24) (gram4 % 2 ^ 24)

unfoldable pub h4grams_loop : ℕ → ℕ → List ℕ → List ℕ
h4grams_loop gram4 offset [] = []
h4grams_loop gram4 offset (b ∷ mem) =
    let next = gram4 % 2 ^ 24 * 2 ^ 8 + b in
    let rest = h4grams_loop next (offset + 1) mem in
    if leb 3 offset then hash_gram next ∷ rest else rest

unfoldable pub gen_h4grams : List ℕ → List ℕ
unfolding h4grams_loop
gen_h4grams mem = if ltb (length mem) 4 then [] else h4grams_loop 0 0 mem

unfoldable pub get_ngram_size_for : IndexType → ℕ
get_ngram_size_for gram3 = 3
get_ngram_size_for hash4 = 4
get_ngram_size_for text4 = 4
get_ngram_size_for wide8 = 8

unfoldable pub get_generator_for : IndexType → List ℕ → List ℕ
get_generator_for gram3 = gen_trigrams
get_generator_for text4 = gen_b64grams
get_generator_for hash4 = gen_h4grams
get_generator_for wide8 = gen_wide_b64grams
