-- ===== src/Query/Sound.antt =====
-- `Query::run` (libursa/Query.cpp) returns the files that the query asks for.
use ursadb.Prelude.{
  ℕ, ◌+◌, ◌≤◌, ◌<◌, ◌^◌, ◌≡◌, refl, Bool, true, false, ◌&&◌, ◌||◌, List, [], arith, leb, Result, ok,
}
use ursadb.Prelude.{length as length_of}
use ursadb.QueryResult.Ops.{QueryResult, everything}
use ursadb.QueryResult.Ops
use ursadb.QueryResult.Sets.{Means, everything-Means, empty-Means, Means-ext}
use ursadb.QueryResult.Branches.{ResultOf}
use ursadb.QueryResult.MinOf.{count_true, do_min_of-Means}
use ursadb.Query.Syntax.{
  PrimitiveQuery, Query, Queries, length, initial_ngram, literal, ngram, and_of, or_of, min_of, nil,
  cons,
}
use ursadb.Query.Meaning.{holds, all_hold, any_holds, number_hold, CountsFit, AllFit}
use ursadb.Query.Run.{run, run_and, run_or, run_min_of, int_of_count}
use ursadb.Query.RunSteps.{and_step, or_step, min_of_step, Keeps}

mutual
  unfolding number_hold

  number_hold-le : (has : PrimitiveQuery → Bool) (qs : Queries) → number_hold has qs ≤ length qs
  number_hold-le has nil = omega arith
  number_hold-le has (cons q qs) = ground (arith, number_hold-le has qs)

int_of_small : (n : ℕ) → n < 2 ^ 31 → int_of_count n ≡ n
unfolding int_of_count
int_of_small n h = ground arith

-- The index answers for the ngrams that the query asks for.
module _ (A : PrimitiveQuery → Type 0) (primitive : PrimitiveQuery → Result QueryResult)
    (has : ℕ → PrimitiveQuery → Bool)
    (answers : (g : PrimitiveQuery) → A g → ResultOf (primitive g) (λ a. has a g)) where
  mutual
    unfolding run holds CountsFit

    run-ResultOf : (q : Query) → CountsFit A q → ResultOf (run primitive q) (λ a. holds (has a) q)
    run-ResultOf (literal v) fits = answers initial_ngram fits
    run-ResultOf (ngram g) fits = answers g fits
    run-ResultOf (and_of qs) fits = run_and-ResultOf qs fits everything (λ _. true) everything-Means
    run-ResultOf (or_of qs) fits = run_or-ResultOf qs fits Ops.empty (λ _. false) empty-Means
    run-ResultOf (min_of n qs) fits =
        let (q, e, means) =
          run_min_of-ResultOf qs fits.1 (int_of_count n) (length qs) [] []
            (record { kept = tt; sizes = refl }) (omega arith) in
        (q, e, Means-ext (λ a. ground (arith, int_of_small n fits.0)) means)

    run_and-ResultOf :
        (qs : Queries)
        → AllFit A qs
        → (result : QueryResult) (m : ℕ → Bool) → Means result m
        → ResultOf (run_and primitive result qs) (λ a. m a && all_hold (has a) qs)
    run_and-ResultOf nil fits result m so_far = (result, refl, Means-ext (λ a. ground arith) so_far)
    run_and-ResultOf (cons q qs) fits result m so_far =
        and_step (λ r. run_and primitive r qs) so_far (run-ResultOf q fits.0)
          (λ r m'. run_and-ResultOf qs fits.1 r m')

    run_or-ResultOf :
        (qs : Queries)
        → AllFit A qs
        → (result : QueryResult) (m : ℕ → Bool) → Means result m
        → ResultOf (run_or primitive result qs) (λ a. m a || any_holds (has a) qs)
    run_or-ResultOf nil fits result m so_far = (result, refl, Means-ext (λ a. ground arith) so_far)
    run_or-ResultOf (cons q qs) fits result m so_far =
        or_step (λ r. run_or primitive r qs) so_far (run-ResultOf q fits.0)
          (λ r m'. run_or-ResultOf qs fits.1 r m')

    run_min_of-ResultOf :
        (qs : Queries)
        → AllFit A qs
        → (cutoff nonempty : ℕ) (results : List QueryResult) (ms : List (ℕ → Bool))
        → Keeps results ms
        → length_of results + length qs ≤ nonempty
        → ResultOf
            (run_min_of primitive cutoff nonempty results qs)
            (λ a. leb cutoff (count_true a ms + number_hold (has a) qs))
    run_min_of-ResultOf nil fits cutoff nonempty results ms keeps enough =
        let (q, e, means) = do_min_of-Means cutoff results ms keeps.kept in
        (q, e, Means-ext (λ a. ground arith) means)
    run_min_of-ResultOf (cons q qs) fits cutoff nonempty results ms keeps enough =
        min_of_step (λ c ne rs. run_min_of primitive c ne rs qs) (length qs)
          (λ a. number_hold (has a) qs) (λ a. number_hold-le (has a) qs)
          (λ c ne rs ms'. run_min_of-ResultOf qs fits.1 c ne rs ms') cutoff nonempty results ms
          keeps enough (run-ResultOf q fits.0)

  -- Where the ngrams that the query asks for are answered with the files that have them, and its
  -- counts fit into an `int`, `run` never throws, and returns the files for which the query holds.
  pub run-Means :
      (q : Query)
      → CountsFit A q
      → (r : QueryResult) × (run primitive q ≡ ok r) × Means r (λ a. holds (has a) q)
  run-Means q fits = run-ResultOf q fits
