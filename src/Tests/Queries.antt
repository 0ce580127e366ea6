-- ===== src/Tests/Queries.antt =====
-- libursa/Query.cpp and libursa/QueryOptimizer.cpp at a concrete database and query.
use ursadb.Prelude.{
  ℕ, ◌≡◌, refl, Bool, true, false, ◌||◌, List, [], ◌∷◌, ◌==◌, arith, All, ok, Result, if◌then◌else◌,
  Bool-cases, inl, inr,
}
use ursadb.Core.{IndexType, gram3, text4, hash4, wide8}
use ursadb.Codec.Encoding.{IsByte}
use ursadb.SortedRun.Runs.{of_sequence}
use ursadb.SortedRun.Represents.{of_sequence-Represents}
use ursadb.QueryResult.Ops.{QueryResult, of_results, empty}
use ursadb.QueryResult.Sets.{Means, just, empty-Means, Means-ext}
use ursadb.QueryResult.Branches.{ResultOf}
use ursadb.Query.Syntax.{PrimitiveQuery, Query, literal, ngram, and_of, min_of, nil, cons}
use ursadb.Query.Meaning.{holds, CountsFit, Any}
use ursadb.Query.Run.{run}
use ursadb.Query.Sound.{run-Means}
use ursadb.Query.Occurs.{asks, indexed}
use ursadb.Prelude.{◌==◌}
use ursadb.Query.Plan.{plan}
use ursadb.Query.Covers.{plan-covers}
use ursadb.Ngram.Generators.{
  get_generator_for, gen_trigrams, gen_b64grams, gen_h4grams, gen_wide_b64grams,
}
use ursadb.Ngram.Windows.{narrow}
use ursadb.Optimizer.Optimize.{one_round, q_optimize}
use ursadb.Optimizer.Optimized.{q_optimize-holds}
use ursadb.Optimizer.Improves.{Improves, one_round-Improves}
use ursadb.Search.{search_complete}

-- One file with bytes, number 5.
abbrev abcd : List ℕ
abcd = 97 ∷ 98 ∷ 99 ∷ 100 ∷ []

abbrev file : ℕ → List ℕ
file a = if a == 5 then abcd else []

-- Its index.
abbrev primitive : PrimitiveQuery → Result QueryResult
primitive g = ok (if indexed abcd g then of_results (of_sequence (5 ∷ [])) else empty)

no_ngrams : (type : IndexType) → get_generator_for type [] ≡ []
unfolding get_generator_for gen_trigrams gen_b64grams gen_h4grams gen_wide_b64grams
no_ngrams gram3 = refl
no_ngrams text4 = refl
no_ngrams hash4 = refl
no_ngrams wide8 = refl

nothing_indexed : (g : PrimitiveQuery) → indexed [] g ≡ false
unfolding indexed
nothing_indexed g = rw (no_ngrams g.itype) refl

file-indexed :
    (g : PrimitiveQuery) (a : ℕ) → indexed (file a) g ≡ (if a == 5 then indexed abcd g else false)
file-indexed g a = elim (Bool-cases (a == 5)) [
  | inl this ↦ rw this refl
  | inr other ↦ rw other (nothing_indexed g)
]

primitive-answers : (g : PrimitiveQuery) → Any g → ResultOf (primitive g) (λ a. indexed (file a) g)
primitive-answers g any = elim (Bool-cases (indexed abcd g)) [
  | inl there ↦ rw there (
    of_results (of_sequence (5 ∷ [])),
    refl,
    just (5 ∷ []) refl (of_sequence-Represents (5 ∷ []) (omega arith, tt) (omega arith, tt))
        (λ a. ground (arith, file-indexed g a)),
  )
  | inr away ↦ rw away (empty, refl, Means-ext (λ a. ground (arith, file-indexed g a)) empty-Means)
]

file-IsByte : (a : ℕ) → All IsByte (file a)
file-IsByte a = elim (Bool-cases (a == 5)) [
  | inl this ↦ rw this (omega arith, (omega arith, (omega arith, (omega arith, tt))))
  | inr other ↦ rw other tt
]

-- "abc" or "bcd", at least one of them and the first one twice.
abbrev wanted : Query
wanted = min_of 1 (
    cons (literal ((97 ∷ []) ∷ (98 ∷ []) ∷ (99 ∷ []) ∷ []))
      (cons (literal ((98 ∷ []) ∷ (99 ∷ []) ∷ (100 ∷ []) ∷ [])) nil))

wanted-CountsFit : CountsFit Any wanted
unfolding CountsFit
wanted-CountsFit = (omega arith, (tt, (tt, tt)))

search_complete_example :
    (o : Query) × (r : QueryResult) × (member : ℕ → Bool) × (q_optimize (plan narrow wanted) ≡ ok o)
    × (run primitive o ≡ ok r)
    × Means r member
    × ((a : ℕ) → (asks (file a) wanted || member a) ≡ member a)
    × ((a b : ℕ) → file a ≡ file b → member a ≡ member b)
search_complete_example =
    search_complete narrow primitive file wanted refl file-IsByte (λ g _. primitive-answers g tt)
      wanted-CountsFit

run-Means_example :
    (r : QueryResult) × (run primitive wanted ≡ ok r)
    × Means r (λ a. holds (λ g. indexed (file a) g) wanted)
run-Means_example =
    run-Means Any primitive (λ a g. indexed (file a) g) primitive-answers wanted wanted-CountsFit

asked : asks abcd wanted ≡ true
unfolding asks
asked = refl

plan-covers_example : holds (indexed abcd) (plan narrow wanted) ≡ true
plan-covers_example =
    plan-covers narrow abcd wanted refl
      (omega arith, (omega arith, (omega arith, (omega arith, tt)))) asked

abbrev abc : PrimitiveQuery
abc = record { itype = gram3; trigram = 6382179 }

-- AND of an AND with a repeated ngram, and a MIN_OF of one.
abbrev nested : Query
nested = and_of (
    cons (and_of (cons (ngram abc) (cons (ngram abc) nil)))
      (cons (min_of 1 (cons (ngram abc) nil)) nil))

nested-CountsFit : CountsFit Any nested
unfolding CountsFit
nested-CountsFit = ((tt, (tt, tt)), ((omega arith, (tt, tt)), tt))

q_optimize-holds_example :
    (r : Query) × (q_optimize nested ≡ ok r)
    × CountsFit Any r
    × ((has : PrimitiveQuery → Bool) → holds has r ≡ holds has nested)
q_optimize-holds_example = q_optimize-holds Any nested nested-CountsFit

one_round-Improves_example : Improves Any nested (one_round nested)
one_round-Improves_example = one_round-Improves Any nested nested-CountsFit
