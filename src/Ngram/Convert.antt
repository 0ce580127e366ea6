-- ===== src/Ngram/Convert.antt =====
-- `convert_gram` of libursa/Utils.cpp, both versions: the ngram of a string of bytes.
use ursadb.Prelude.{ℕ, zero, suc, ◌+◌, ◌*◌, ◌/◌, ◌%◌, ◌^◌, List, [], ◌∷◌, u64, Option, none, some}
use ursadb.Core.{IndexType}
use ursadb.Query.Syntax.{QToken, QString}
use ursadb.Ngram.Generators.{get_ngram_size_for, get_generator_for}

abbrev pub head? {ℓ} : {A : Type ℓ} → List A → Option A
head? [] = none
head? (x ∷ xs) = some x

-- The bytes of a number, the highest first: `(source >> ((size - i - 1) * 8)) & 0xFF`.
unfoldable pub bytes_of : ℕ → ℕ → List ℕ
bytes_of zero source = []
bytes_of (suc n) source = source / 256 ^ n % 256 ∷ bytes_of n source

unfoldable pub convert_gram : IndexType → ℕ → Option ℕ
unfolding bytes_of get_ngram_size_for get_generator_for
convert_gram type source =
    head? (get_generator_for type (bytes_of (get_ngram_size_for type) source))

-- `possible_values()[0]` of a token that is `unique()`.
unfoldable pub unique : QToken → Option ℕ
unique (v ∷ []) = some v
unique _ = none

-- The loop over the next `n` tokens. It ends too where the string does, which is the test that
-- stands before it: `index + size > string.size()`.
unfoldable pub gather : ℕ → ℕ → QString → Option ℕ
unfolding unique
gather zero source string = some source
gather (suc n) source [] = none
gather (suc n) source (token ∷ string) = elim (unique token) [
  | none ↦ none
  | some v ↦ gather n (u64 (source * 256 + v)) string
]

-- `string` is the query string from `index` on.
unfoldable pub convert_gram_at : IndexType → QString → Option ℕ
unfolding gather
convert_gram_at type string = elim (gather (get_ngram_size_for type) 0 string) [
  | none ↦ none
  | some source ↦ convert_gram type source
]
