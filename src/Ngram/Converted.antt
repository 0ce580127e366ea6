-- ===== src/Ngram/Converted.antt =====
-- The ngrams that `convert_gram` (libursa/Utils.cpp) gives have 24 bits.
use ursadb.Prelude.{ℕ, zero, suc, ◌≡◌, List, [], ◌∷◌, arith, All, some, Option-cases, inl, inr}
use ursadb.Core.{IndexType}
use ursadb.Codec.Encoding.{IsByte}
use ursadb.Query.Syntax.{QString}
use ursadb.Ngram.Generators.{get_ngram_size_for}
use ursadb.Ngram.Convert.{head?, bytes_of, convert_gram, gather, convert_gram_at}
use ursadb.Ngram.Small.{IsGram, get_generator_for-small}

bytes_of-IsByte : (n source : ℕ) → All IsByte (bytes_of n source)
unfolding bytes_of
bytes_of-IsByte zero source = tt
bytes_of-IsByte (suc n) source = (omega arith, bytes_of-IsByte n source)

head?-small : (grams : List ℕ) (gram : ℕ) → All IsGram grams → head? grams ≡ some gram → IsGram gram
head?-small [] gram h e = absurd (ground (arith, e))
head?-small (g ∷ grams) gram h e =
    let same : g ≡ gram = ground (arith, e) in omega (arith, same, h.0)

convert_gram-small :
    (type : IndexType) (source gram : ℕ) → convert_gram type source ≡ some gram → IsGram gram
unfolding convert_gram
convert_gram-small type source gram e =
    head?-small _ gram
      (get_generator_for-small type _ (bytes_of-IsByte (get_ngram_size_for type) source)) e

pub convert_gram_at-small :
    (type : IndexType) (string : QString) (gram : ℕ)
    → convert_gram_at type string ≡ some gram
    → IsGram gram
unfolding convert_gram_at
convert_gram_at-small type string gram e =
    elim (Option-cases (gather (get_ngram_size_for type) 0 string)) [
      | inl missing ↦ absurd (ground (arith, rw (missing, convert_gram_at) at e))
      | inr (source, found) ↦ convert_gram-small type source gram (rw (found, convert_gram_at) at e)
    ]
