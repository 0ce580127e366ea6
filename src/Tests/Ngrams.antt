-- ===== src/Tests/Ngrams.antt =====
-- The generators of libursa/Utils.cpp at concrete files.
use ursadb.Prelude.{ℕ, ◌≡◌, refl, true, List, [], ◌∷◌, ◌++◌, arith, elem, some, none}
use ursadb.Core.{text4}
use ursadb.Ngram.Generators.{
  get_b64_value, gen_b64grams, gen_h4grams, gen_wide_b64grams, get_generator_for,
  get_ngram_size_for, b64grams_loop,
}
use ursadb.Ngram.Convert.{convert_gram, bytes_of}
use ursadb.Ngram.Complete.{hash_of, b64gram_of, gen_h4grams_complete, gen_b64grams_complete}
use ursadb.Ngram.Wide.{wide_window, gen_wide_b64grams_complete, gen_wide_b64grams-misses}
use ursadb.Ngram.Windows.{convert_gram-indexed}
use ursadb.Ngram.Pack.{pack}

gen_h4grams_complete_example :
    elem (hash_of 1 2 3 4) (gen_h4grams ((9 ∷ []) ++ 1 ∷ 2 ∷ 3 ∷ 4 ∷ [])) ≡ true
gen_h4grams_complete_example =
    gen_h4grams_complete 1 2 3 4 [] (omega arith) (omega arith) (omega arith) (omega arith) (9 ∷ [])

letter_a : get_b64_value 97 ≡ some 26
unfolding get_b64_value
letter_a = refl

letter_b : get_b64_value 98 ≡ some 27
unfolding get_b64_value
letter_b = refl

no_letter : get_b64_value 1 ≡ none
unfolding get_b64_value
no_letter = refl

gen_b64grams_complete_example :
    elem (b64gram_of 26 27 26 27) (gen_b64grams ((9 ∷ []) ++ 97 ∷ 98 ∷ 97 ∷ 98 ∷ [])) ≡ true
gen_b64grams_complete_example =
    gen_b64grams_complete 97 98 97 98 26 27 26 27 [] letter_a letter_b letter_a letter_b (9 ∷ [])

gen_wide_b64grams_complete_example :
    (elem (b64gram_of 26 27 26 27) (gen_wide_b64grams (wide_window 97 98 97 98 [])) ≡ true)
    × (elem (b64gram_of 26 27 26 27) (gen_wide_b64grams ([] ++ 1 ∷ wide_window 97 98 97 98 []))
        ≡ true)
gen_wide_b64grams_complete_example =
    gen_wide_b64grams_complete 97 98 97 98 26 27 26 27 [] letter_a letter_b letter_a letter_b [] 1
      no_letter

gen_wide_b64grams-misses_example : gen_wide_b64grams (97 ∷ wide_window 97 98 97 98 []) ≡ []
gen_wide_b64grams-misses_example =
    gen_wide_b64grams-misses 97 97 98 97 98 26 26 27 26 27 letter_a letter_a letter_b letter_a
      letter_b

abbrev abab : List ℕ
abab = 97 ∷ 98 ∷ 97 ∷ 98 ∷ []

abab_gram : convert_gram text4 (pack 0 abab) ≡ some (b64gram_of 26 27 26 27)
unfolding convert_gram bytes_of get_generator_for get_ngram_size_for gen_b64grams b64grams_loop
    get_b64_value
abab_gram = refl

convert_gram-indexed_example :
    elem (b64gram_of 26 27 26 27) (get_generator_for text4 ((9 ∷ []) ++ (abab ++ (9 ∷ [])))) ≡ true
convert_gram-indexed_example =
    convert_gram-indexed text4 abab (9 ∷ []) (9 ∷ []) (b64gram_of 26 27 26 27) refl
      (unfold get_ngram_size_for in refl)
      (omega arith, (omega arith, (omega arith, (omega arith, tt)))) abab_gram
