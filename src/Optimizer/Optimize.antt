-- ===== src/Optimizer/Optimize.antt =====
-- `q_optimize` of libursa/QueryOptimizer.cpp, which repeats the passes until none changes anything.
use ursadb.Prelude.{ℕ, zero, suc, ◌+◌, ◌*◌, Bool, true, false, Result, ok, err, out_of_fuel, ◌>>=◌}
use ursadb.Query.Syntax.{Query, Queries, literal, ngram, and_of, or_of, min_of, nil, cons}
use ursadb.Optimizer.Passes.{
  flatten_trivial_operations, inline_suboperations, deduplicate_primitives, simplify_minof,
  propagate_degenerate_queries, reorder_subqueries,
}

-- The body of the loop.
unfoldable pub one_round : Query → Query × Bool
one_round q =
    let (q1, changed1) = flatten_trivial_operations q false in
    let (q2, changed2) = inline_suboperations q1 changed1 in
    let (q3, changed3) = deduplicate_primitives q2 changed2 in
    let (q4, changed4) = simplify_minof q3 changed3 in propagate_degenerate_queries q4 changed4

unfoldable pub optimize_loop : ℕ → Query → Result Query
optimize_loop zero q = err out_of_fuel
optimize_loop (suc fuel) q =
    let (q', changed) = one_round q in elim changed [ true ↦ optimize_loop fuel q' | false ↦ ok q' ]

-- The nodes of a query.
unfoldable mutual
  pub size : Query → ℕ
  size (literal v) = 1
  size (ngram g) = 1
  size (and_of qs) = 1 + sizes qs
  size (or_of qs) = 1 + sizes qs
  size (min_of n qs) = 1 + sizes qs

  pub sizes : Queries → ℕ
  sizes nil = 0
  sizes (cons q qs) = size q + sizes qs

-- A MIN_OF may change to another operation without getting smaller.
unfoldable pub measure : Query → ℕ
unfolding size
measure (min_of n qs) = 1 + 2 * size (min_of n qs)
measure q = 2 * size q

-- The loop, with as many rounds as may change something and one more; then the sorting.
unfoldable pub settle : Query → Result Query
settle q = optimize_loop (suc (measure q)) q >>= λ q'. ok (reorder_subqueries q')

unfoldable mutual
  pub q_optimize : Query → Result Query
  q_optimize (literal v) = ok (literal v)
  q_optimize (ngram g) = ok (ngram g)
  q_optimize (and_of qs) = simplify_subqueries qs >>= λ qs'. settle (and_of qs')
  q_optimize (or_of qs) = simplify_subqueries qs >>= λ qs'. settle (or_of qs')
  q_optimize (min_of n qs) = simplify_subqueries qs >>= λ qs'. settle (min_of n qs')

  -- The loop of `simplify_subqueries`, which rebuilds the query with the same type and count.
  pub simplify_subqueries : Queries → Result Queries
  simplify_subqueries nil = ok nil
  simplify_subqueries (cons q qs) =
      q_optimize q >>= λ q'. simplify_subqueries qs >>= λ qs'. ok (cons q' qs')
