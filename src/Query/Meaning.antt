-- ===== src/Query/Meaning.antt =====
-- What a query asks of one file, given the ngrams that the file has.
use ursadb.Prelude.{◌<◌, ◌^◌, ℕ, ◌+◌, Bool, true, false, ◌&&◌, ◌||◌, leb, if◌then◌else◌}
use ursadb.Query.Syntax.{
  PrimitiveQuery, Query, Queries, initial_ngram, literal, ngram, and_of, or_of, min_of, nil, cons,
}

-- `has g`: the file has the ngram `g`. A query that is not planned is run as its `as_ngram()`.
unfoldable mutual
  pub holds : (PrimitiveQuery → Bool) → Query → Bool
  holds has (literal v) = has initial_ngram
  holds has (ngram g) = has g
  holds has (and_of qs) = all_hold has qs
  holds has (or_of qs) = any_holds has qs
  holds has (min_of n qs) = leb n (number_hold has qs)

  pub all_hold : (PrimitiveQuery → Bool) → Queries → Bool
  all_hold has nil = true
  all_hold has (cons q qs) = holds has q && all_hold has qs

  pub any_holds : (PrimitiveQuery → Bool) → Queries → Bool
  any_holds has nil = false
  any_holds has (cons q qs) = holds has q || any_holds has qs

  pub number_hold : (PrimitiveQuery → Bool) → Queries → ℕ
  number_hold has nil = 0
  number_hold has (cons q qs) = (if holds has q then 1 else 0) + number_hold has qs

-- Every count in the query is at most the largest `int`, and it asks only for ngrams that fit.
unfoldable mutual
  pub CountsFit : (PrimitiveQuery → Type 0) → Query → Type 0
  CountsFit A (literal v) = A initial_ngram
  CountsFit A (ngram g) = A g
  CountsFit A (and_of qs) = AllFit A qs
  CountsFit A (or_of qs) = AllFit A qs
  CountsFit A (min_of n qs) = (n < 2 ^ 31) × AllFit A qs

  pub AllFit : (PrimitiveQuery → Type 0) → Queries → Type 0
  AllFit A nil = Unit
  AllFit A (cons q qs) = CountsFit A q × AllFit A qs

-- Of any ngram.
abbrev pub Any : PrimitiveQuery → Type 0
Any g = Unit
