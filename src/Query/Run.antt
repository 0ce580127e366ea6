-- ===== src/Query/Run.antt =====
-- `Query::run` of libursa/Query.cpp. The calls of the prefetcher, which ask the system to read
-- ahead, and the counters do not change what is returned, and are left out.
use ursadb.Prelude.{
  ℕ, ◌-◌, ◌^◌, true, false, List, [], ◌∷◌, ◌++◌, ltb, leb, if◌then◌else◌, Result, ok, ◌>>=◌,
}
use ursadb.QueryResult.Ops
use ursadb.QueryResult.Ops.{QueryResult, everything, is_empty}
use ursadb.Query.Syntax.{
  PrimitiveQuery, Query, Queries, length, initial_ngram, literal, ngram, and_of, or_of, min_of, nil,
  cons,
}

-- `int cutoff = count`. A count from 2 ^ 31 on is negative as an `int`, and every test that follows
-- treats it as 0.
unfoldable pub int_of_count : ℕ → ℕ
int_of_count count = if ltb count (2 ^ 31) then count else 0

unfoldable mutual
  unfolding int_of_count

  pub run : (PrimitiveQuery → Result QueryResult) → Query → Result QueryResult
  run primitive (literal v) = primitive initial_ngram
  run primitive (ngram g) = primitive g
  run primitive (and_of qs) = run_and primitive everything qs
  run primitive (or_of qs) = run_or primitive Ops.empty qs
  run primitive (min_of count qs) = run_min_of primitive (int_of_count count) (length qs) [] qs

  -- The loop of AND, which stops at an empty result.
  pub run_and : (PrimitiveQuery → Result QueryResult) → QueryResult → Queries → Result QueryResult
  run_and primitive result nil = ok result
  run_and primitive result (cons q qs) = run primitive q >>= λ next.
      Ops.do_and result next >>= λ result'. elim (is_empty result') [
        | true ↦ ok result'
        | false ↦ run_and primitive result' qs
      ]

  -- The loop of OR, which stops at everything.
  pub run_or : (PrimitiveQuery → Result QueryResult) → QueryResult → Queries → Result QueryResult
  run_or primitive result nil = ok result
  run_or primitive result (cons q qs) = run primitive q >>= λ next.
      Ops.do_or result next >>= λ result'. elim result'.has_everything [
        | true ↦ ok result'
        | false ↦ run_or primitive result' qs
      ]

  -- The loop of MIN_OF over `cutoff`, `nonempty_sources` and `results`.
  pub run_min_of :
      (PrimitiveQuery → Result QueryResult)
      → ℕ
      → ℕ
      → List QueryResult
      → Queries
      → Result QueryResult
  run_min_of primitive cutoff nonempty results nil = Ops.do_min_of cutoff results
  run_min_of primitive cutoff nonempty results (cons q qs) = run primitive q >>= λ next.
      elim next.has_everything [
        | true ↦ elim (leb (cutoff - 1) 0) [
          | true ↦ ok everything
          | false ↦ run_min_of primitive (cutoff - 1) nonempty results qs
        ]
        | false ↦ elim (is_empty next) [
          | true ↦ elim (ltb (nonempty - 1) cutoff) [
            | true ↦ ok Ops.empty
            | false ↦ run_min_of primitive cutoff (nonempty - 1) results qs
          ]
          | false ↦ run_min_of primitive cutoff nonempty (results ++ (next ∷ [])) qs
        ]
      ]
