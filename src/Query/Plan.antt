-- ===== src/Query/Plan.antt =====
-- `plan_qstring` and `Query::plan` of libursa/Query.cpp: from strings to ngrams.
use ursadb.Prelude.{ℕ, ◌+◌, Bool, true, false, ◌&&◌, [], ◌∷◌, leb, Option, none, some}
use ursadb.Core.{IndexType, gram3, text4, hash4, wide8}
use ursadb.Query.Syntax.{QString, Query, Queries, literal, ngram, and_of, or_of, min_of, nil, cons}
use ursadb.Ngram.Convert.{convert_gram_at}

-- `plan.emplace_back(PrimitiveQuery(type, *gram))`, if there is one.
abbrev pub add_gram : IndexType → Option ℕ → Queries → Queries
add_gram type none plan = plan
add_gram type (some gram) plan = cons (ngram (record { itype = type; trigram = gram })) plan

-- The ngram where the test holds.
abbrev pub gram_if : Bool → Option ℕ → Option ℕ
gram_if true gram = gram
gram_if false gram = none

-- The loop, from index `i` on, where the string is what lies there and behind. `types` tells which
-- types are queried.
unfoldable pub plan_loop : (IndexType → Bool) → ℕ → ℕ → QString → Queries
plan_loop types skip_to i [] = nil
plan_loop types skip_to i (s ∷ []) = nil
plan_loop types skip_to i (s ∷ t ∷ []) = nil
plan_loop types skip_to i (s ∷ t ∷ u ∷ rest) =
    let gram_at = λ (type : IndexType). convert_gram_at type (s ∷ t ∷ u ∷ rest) in
    elim (gram_if (types wide8) (gram_at wide8)) [
      | some gram ↦ add_gram wide8 (some gram) (plan_loop types (i + 6) (i + 2) (u ∷ rest))
      | none ↦ elim (gram_if (types text4) (gram_at text4)) [
        | some gram ↦ add_gram text4 (some gram) (plan_loop types (i + 2) (i + 1) (t ∷ u ∷ rest))
        | none ↦ add_gram hash4 (gram_if (leb skip_to (i + 1) && types hash4) (gram_at hash4)) (
            add_gram gram3 (gram_if (leb skip_to i && types gram3) (gram_at gram3))
              (plan_loop types skip_to (i + 1) (t ∷ u ∷ rest)))
      ]
    ]

unfoldable pub plan_qstring : (IndexType → Bool) → QString → Query
unfolding plan_loop
plan_qstring types value = and_of (plan_loop types 0 0 value)

-- A query that is planned has an empty string.
unfoldable mutual
  pub plan : (IndexType → Bool) → Query → Query
  plan types (literal value) = plan_qstring types value
  plan types (ngram g) = plan_qstring types []
  plan types (and_of qs) = and_of (plan_all types qs)
  plan types (or_of qs) = or_of (plan_all types qs)
  plan types (min_of count qs) = min_of count (plan_all types qs)

  pub plan_all : (IndexType → Bool) → Queries → Queries
  plan_all types nil = nil
  plan_all types (cons q qs) = cons (plan types q) (plan_all types qs)
