-- ===== src/Ngram/Windows.antt =====
-- What `convert_gram` of libursa/Utils.cpp gives for a string is indexed of every file that has the
-- string.
use ursadb.Prelude.{
  ℕ, ◌+◌, ◌<◌, ◌≡◌, refl, sym, ap, ◌∙◌, Bool, true, false, List, [], ◌∷◌, ◌++◌, arith, some,
  Option-cases, inl, inr, length, elem, All,
}
use mathlib.Core.Path.{subst}
use ursadb.Core.{IndexType, gram3, text4, hash4, wide8}
use ursadb.Codec.Encoding.{IsByte}
use ursadb.Ngram.Generators.{
  get_b64_value, push_b64, b64grams_loop, gen_trigrams, trigrams_loop, gen_b64grams, gen_h4grams,
  h4grams_loop, get_generator_for, get_ngram_size_for,
}
use ursadb.Ngram.Convert.{head?, bytes_of, convert_gram}
use ursadb.Ngram.Complete.{
  trigram_of, gen_trigrams_complete, hash_of, gen_h4grams_complete, b64gram_of, pushed,
  gen_b64grams_complete,
}
use ursadb.Ngram.Pack.{pack, bytes_of-pack}

-- The only ngram of a string as long as an ngram.
unfoldable pub Indexed : IndexType → List ℕ → Type 0
Indexed type w =
    (g : ℕ)
    → head? (get_generator_for type w) ≡ some g
    → (pre post : List ℕ) → elem g (get_generator_for type (pre ++ (w ++ post))) ≡ true

some_injective : (a b : ℕ) → some a ≡ some b → a ≡ b
some_injective a b h = ground arith

gram3-Indexed : (w : List ℕ) → length w ≡ 3 → All IsByte w → Indexed gram3 w
unfolding get_generator_for Indexed
gram3-Indexed (a ∷ b ∷ c ∷ []) e h g first pre post =
    let same : trigram_of a b c ≡ g = unfold gen_trigrams trigrams_loop in ground arith in
    subst (λ t. elem t (gen_trigrams (pre ++ a ∷ b ∷ c ∷ post)) ≡ true) same
      (gen_trigrams_complete a b c h.0 h.1.0 h.1.1.0 post pre)
gram3-Indexed [] e h g first pre post = absurd (omega arith)
gram3-Indexed (a ∷ []) e h g first pre post = absurd (omega arith)
gram3-Indexed (a ∷ b ∷ []) e h g first pre post = absurd (omega arith)
gram3-Indexed (a ∷ b ∷ c ∷ d ∷ w) e h g first pre post = absurd (omega arith)

hash4-Indexed : (w : List ℕ) → length w ≡ 4 → All IsByte w → Indexed hash4 w
unfolding get_generator_for Indexed
hash4-Indexed (a ∷ b ∷ c ∷ d ∷ []) e h g first pre post =
    let same : hash_of a b c d ≡ g = unfold gen_h4grams h4grams_loop in ground arith in
    subst (λ t. elem t (gen_h4grams (pre ++ a ∷ b ∷ c ∷ d ∷ post)) ≡ true) same
      (gen_h4grams_complete a b c d post h.0 h.1.0 h.1.1.0 h.1.1.1.0 pre)
hash4-Indexed [] e h g first pre post = absurd (omega arith)
hash4-Indexed (a ∷ []) e h g first pre post = absurd (omega arith)
hash4-Indexed (a ∷ b ∷ []) e h g first pre post = absurd (omega arith)
hash4-Indexed (a ∷ b ∷ c ∷ []) e h g first pre post = absurd (omega arith)
hash4-Indexed (a ∷ b ∷ c ∷ d ∷ x ∷ w) e h g first pre post = absurd (omega arith)

-- With fewer than four letters, nothing is generated.
b64grams_loop-few : (mem : List ℕ) (gram n : ℕ) → n + length mem < 4 → b64grams_loop gram n mem ≡ []
unfolding b64grams_loop
b64grams_loop-few [] gram n h = refl
b64grams_loop-few (b ∷ mem) gram n h = elim (Option-cases (get_b64_value b)) [
  | inl stops ↦ rw (stops, b64grams_loop) (b64grams_loop-few mem gram 0 (omega arith))
  | inr (v, e) ↦
      rw (e, b64grams_loop) (ground (arith, b64grams_loop-few mem (push_b64 gram v) (n + 1)))
]

-- Four bytes with an ngram are letters.
letters :
    (a b c d g : ℕ)
    → head? (gen_b64grams (a ∷ b ∷ c ∷ d ∷ [])) ≡ some g
    → (v w x y : ℕ) × (get_b64_value a ≡ some v)
      × (get_b64_value b ≡ some w)
      × (get_b64_value c ≡ some x)
      × (get_b64_value d ≡ some y)
      × (b64gram_of v w x y ≡ g)
unfolding gen_b64grams b64grams_loop
letters a b c d g first = elim (Option-cases (get_b64_value a)) [
  | inl none_a ↦ absurd (ground (arith, b64grams_loop-few (b ∷ c ∷ d ∷ []) 0 0))
  | inr (v, is_v) ↦ elim (Option-cases (get_b64_value b)) [
    | inl none_b ↦ absurd (ground (arith, b64grams_loop-few (c ∷ d ∷ []) (push_b64 0 v) 0))
    | inr (w, is_w) ↦ elim (Option-cases (get_b64_value c)) [
      | inl none_c ↦
          absurd (ground (arith, b64grams_loop-few (d ∷ []) (push_b64 (push_b64 0 v) w) 0))
      | inr (x, is_x) ↦ elim (Option-cases (get_b64_value d)) [
        | inl none_d ↦ absurd (ground arith)
        | inr (y, is_y) ↦ (
          v,
          w,
          x,
          y,
          is_v,
          is_w,
          is_x,
          is_y,
          ground (arith, pushed a b c d v w x y [] is_v is_w is_x is_y 0),
        )
      ]
    ]
  ]
]

text4-Indexed : (w : List ℕ) → length w ≡ 4 → Indexed text4 w
unfolding get_generator_for Indexed
text4-Indexed (a ∷ b ∷ c ∷ d ∷ []) e g first pre post =
    let (v, w, x, y, is_v, is_w, is_x, is_y, same) = letters a b c d g first in
    subst (λ t. elem t (gen_b64grams (pre ++ a ∷ b ∷ c ∷ d ∷ post)) ≡ true) same
      (gen_b64grams_complete a b c d v w x y post is_v is_w is_x is_y pre)
text4-Indexed [] e g first pre post = absurd (omega arith)
text4-Indexed (a ∷ []) e g first pre post = absurd (omega arith)
text4-Indexed (a ∷ b ∷ []) e g first pre post = absurd (omega arith)
text4-Indexed (a ∷ b ∷ c ∷ []) e g first pre post = absurd (omega arith)
text4-Indexed (a ∷ b ∷ c ∷ d ∷ x ∷ w) e g first pre post = absurd (omega arith)

-- All types but wide8.
abbrev pub narrow : IndexType → Bool
narrow wide8 = false
narrow _ = true

window-Indexed :
    (type : IndexType)
    → narrow type ≡ true
    → (w : List ℕ) → length w ≡ get_ngram_size_for type
    → All IsByte w
    → Indexed type w
unfolding get_ngram_size_for
window-Indexed gram3 n w e h = gram3-Indexed w e h
window-Indexed text4 n w e h = text4-Indexed w e
window-Indexed hash4 n w e h = hash4-Indexed w e h
window-Indexed wide8 n w e h = cc

-- The ngram that is asked for is indexed of every file with its bytes in a row, except for wide8.
pub convert_gram-indexed :
    (type : IndexType) (w pre post : List ℕ) (g : ℕ)
    → narrow type ≡ true
    → length w ≡ get_ngram_size_for type
    → All IsByte w
    → convert_gram type (pack 0 w) ≡ some g
    → elem g (get_generator_for type (pre ++ (w ++ post))) ≡ true
unfolding convert_gram Indexed
convert_gram-indexed type w pre post g n e h first =
    window-Indexed type n w e h g
      (ap (λ t. head? (get_generator_for type t))
          (sym (bytes_of-pack 0 w h) ∙ ap (λ k. bytes_of k (pack 0 w)) e)
        ∙ first)
      pre post
