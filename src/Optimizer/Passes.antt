-- ===== src/Optimizer/Passes.antt =====
-- The passes of libursa/QueryOptimizer.cpp. Each takes `*changed` and returns it.
use ursadb.Prelude.{
  ℕ, ◌+◌, ◌-◌, ◌*◌, ◌^◌, Bool, true, false, not, ◌&&◌, ◌||◌, List, [], ◌∷◌, ltb, ◌==◌,
  if◌then◌else◌, u32, Option, none, some,
}
use ursadb.Core.{IndexType, gram3, text4, hash4, wide8}
use ursadb.Query.Syntax.{
  PrimitiveQuery, less, Query, Queries, QueryType, and_type, or_type, length, append, initial_ngram,
  literal, ngram, and_of, or_of, min_of, nil, cons,
}

abbrev pub q_everything : Query
q_everything = and_of nil

unfoldable pub is_everything : Query → Bool
is_everything (and_of nil) = true
is_everything _ = false

unfoldable pub flatten_trivial_operations : Query → Bool → Query × Bool
flatten_trivial_operations (and_of (cons q nil)) changed = (q, true)
flatten_trivial_operations (or_of (cons q nil)) changed = (q, true)
flatten_trivial_operations q changed = (q, changed)

-- The subqueries of a query of the type that is given, which is AND or OR.
unfoldable pub of_type : QueryType → Query → Option Queries
of_type and_type (and_of qs) = some qs
of_type or_type (or_of qs) = some qs
of_type _ _ = none

unfoldable pub inline_all : QueryType → Queries → Bool → Queries × Bool
inline_all type nil changed = (nil, changed)
inline_all type (cons q qs) changed = elim (of_type type q) [
  | none ↦ let (rest, changed') = inline_all type qs changed in (cons q rest, changed')
  | some subqueries ↦
      let (rest, changed') = inline_all type qs true in (append subqueries rest, changed')
]

unfoldable pub inline_suboperations : Query → Bool → Query × Bool
unfolding inline_all
inline_suboperations (and_of qs) changed =
    let (qs', changed') = inline_all and_type qs changed in (and_of qs', changed')
inline_suboperations (or_of qs) changed =
    let (qs', changed') = inline_all or_type qs changed in (or_of qs', changed')
inline_suboperations q changed = (q, changed)

-- `seen.count(g) != 0` in a `std::set`: neither is less than the other.
unfoldable pub contains : List PrimitiveQuery → PrimitiveQuery → Bool
contains [] g = false
contains (p ∷ ps) g = (not (less p g) && not (less g p)) || contains ps g

-- `as_ngram()` of a query of type PRIMITIVE.
unfoldable pub primitive_of : Query → Option PrimitiveQuery
primitive_of (literal v) = some initial_ngram
primitive_of (ngram g) = some g
primitive_of _ = none

unfoldable pub deduplicate : List PrimitiveQuery → Queries → Bool → Queries × Bool
deduplicate seen nil changed = (nil, changed)
deduplicate seen (cons q qs) changed = elim (primitive_of q) [
  | none ↦ let (rest, changed') = deduplicate seen qs changed in (cons q rest, changed')
  | some g ↦ elim (contains seen g) [
    | false ↦ let (rest, changed') = deduplicate (g ∷ seen) qs changed in (cons q rest, changed')
    | true ↦ deduplicate seen qs true
  ]
]

unfoldable pub deduplicate_primitives : Query → Bool → Query × Bool
unfolding deduplicate
deduplicate_primitives (and_of qs) changed =
    let (qs', changed') = deduplicate [] qs changed in (and_of qs', changed')
deduplicate_primitives (or_of qs) changed =
    let (qs', changed') = deduplicate [] qs changed in (or_of qs', changed')
deduplicate_primitives q changed = (q, changed)

unfoldable pub simplify_minof : Query → Bool → Query × Bool
simplify_minof (min_of n qs) changed =
    if n == length qs
    then (and_of qs, true)
    else if n == 1
    then (or_of qs, true)
    else if n == 0
    then (q_everything, true)
    else (min_of n qs, changed)
simplify_minof q changed = (q, changed)

-- `count -= 1` on a `uint32_t`.
unfoldable pub decrement : ℕ → ℕ
decrement count = u32 (count + (2 ^ 32 - 1))

-- The loop over the subqueries of MIN_OF; `none` is its early return.
unfoldable pub propagate_min : ℕ → Queries → Bool → Option (ℕ × Queries) × Bool
propagate_min count nil changed = (some (count, nil), changed)
propagate_min count (cons q qs) changed = elim (is_everything q) [
  | true ↦
      let count' = decrement count in
      elim (count' == 0) [ true ↦ (none, true) | false ↦ propagate_min count' qs true ]
  | false ↦
      let (rest, changed') = propagate_min count qs changed in
      (elim rest [ none ↦ none | some (count', qs') ↦ some (count', cons q qs') ], changed')
]

unfoldable pub any_everything : Queries → Bool
any_everything nil = false
any_everything (cons q qs) = is_everything q || any_everything qs

unfoldable pub propagate_degenerate_queries : Query → Bool → Query × Bool
unfolding propagate_min any_everything
propagate_degenerate_queries (min_of n qs) changed =
    let (left, changed') = propagate_min n qs changed in
    (elim left [ none ↦ q_everything | some (count, qs') ↦ min_of count qs' ], changed')
propagate_degenerate_queries (or_of qs) changed =
    if any_everything qs then (q_everything, true) else (or_of qs, changed)
propagate_degenerate_queries q changed = (q, changed)

unfoldable pub index_cost : IndexType → ℕ
index_cost wide8 = 0
index_cost text4 = 1
index_cost hash4 = 2
index_cost gram3 = 3

unfoldable pub query_heuristic_cost : Query → ℕ
unfolding index_cost
query_heuristic_cost (literal v) = u32 (index_cost gram3 * 2 ^ 24 + 0)
query_heuristic_cost (ngram g) = u32 (index_cost g.itype * 2 ^ 24 + g.trigram)
query_heuristic_cost (and_of qs) = 4 * 2 ^ 24
query_heuristic_cost (min_of n qs) = 5 * 2 ^ 24
query_heuristic_cost (or_of qs) = 6 * 2 ^ 24

unfoldable pub query_heuristic_comparer : Query → Query → Bool
query_heuristic_comparer left right = ltb (query_heuristic_cost left) (query_heuristic_cost right)

-- `std::stable_sort`.
unfoldable pub insert_sorted : Query → Queries → Queries
insert_sorted q nil = cons q nil
insert_sorted q (cons r rs) =
    if query_heuristic_comparer r q then cons r (insert_sorted q rs) else cons q (cons r rs)

unfoldable pub stable_sort : Queries → Queries
unfolding insert_sorted
stable_sort nil = nil
stable_sort (cons q qs) = insert_sorted q (stable_sort qs)

unfoldable pub reorder_subqueries : Query → Query
unfolding stable_sort
reorder_subqueries (and_of qs) = and_of (stable_sort qs)
reorder_subqueries q = q
