-- ===== src/Query/Occurs.antt =====
-- What a query asks of the bytes of a file, before it is planned.
use ursadb.Prelude.{ℕ, ◌+◌, Bool, true, false, ◌&&◌, ◌||◌, List, [], ◌∷◌, leb, if◌then◌else◌, elem}
use ursadb.Query.Syntax.{
  PrimitiveQuery, QString, Query, Queries, literal, ngram, and_of, or_of, min_of, nil, cons,
}
use ursadb.Ngram.Generators.{get_generator_for}

-- The bytes start with a string that the tokens accept.
abbrev pub starts_with : QString → List ℕ → Bool
starts_with [] mem = true
starts_with (token ∷ string) [] = false
starts_with (token ∷ string) (b ∷ mem) = elem b token && starts_with string mem

abbrev pub occurs : QString → List ℕ → Bool
occurs string [] = starts_with string []
occurs string (b ∷ mem) = starts_with string (b ∷ mem) || occurs string mem

-- `QueryType` by `QueryType`: the documented meaning of the query language.
unfoldable mutual
  pub asks : List ℕ → Query → Bool
  asks mem (literal value) = occurs value mem
  asks mem (ngram g) = true
  asks mem (and_of qs) = asks_all mem qs
  asks mem (or_of qs) = asks_any mem qs
  asks mem (min_of count qs) = leb count (asks_number mem qs)

  pub asks_all : List ℕ → Queries → Bool
  asks_all mem nil = true
  asks_all mem (cons q qs) = asks mem q && asks_all mem qs

  pub asks_any : List ℕ → Queries → Bool
  asks_any mem nil = false
  asks_any mem (cons q qs) = asks mem q || asks_any mem qs

  pub asks_number : List ℕ → Queries → ℕ
  asks_number mem nil = 0
  asks_number mem (cons q qs) = (if asks mem q then 1 else 0) + asks_number mem qs

-- The ngrams that are indexed of a file.
unfoldable pub indexed : List ℕ → PrimitiveQuery → Bool
indexed mem g = elem g.trigram (get_generator_for g.itype mem)
