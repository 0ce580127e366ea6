-- ===== src/Optimizer/Improves.antt =====
-- What each pass of libursa/QueryOptimizer.cpp, and a round of all of them, does to a query.
use ursadb.Prelude.{◌+◌, ◌≤◌, ◌≡◌, refl, Bool, false, arith, if◌then◌else◌, Bool-cases, inl, inr}
use ursadb.Query.Syntax.{PrimitiveQuery, Query}
use ursadb.Query.Meaning.{holds, CountsFit}
use ursadb.Optimizer.Passes.{
  flatten_trivial_operations, inline_suboperations, deduplicate_primitives, simplify_minof,
  propagate_degenerate_queries,
}
use ursadb.Optimizer.Optimize.{measure, one_round}
use ursadb.Optimizer.Step.{Keeps}
use ursadb.Optimizer.Flatten.{flatten-Keeps, inline-Keeps}
use ursadb.Optimizer.Deduplicate.{deduplicate-Keeps}
use ursadb.Optimizer.Propagate.{minof-Keeps}
use ursadb.Optimizer.Optimized.{one_round-Keeps}

module _ (A : PrimitiveQuery → Type 0) where
  -- The counts are still small, the same files are asked for, and the query is smaller if `*changed`
  -- was set.
  abbrev pub Improves : Query → Query × Bool → Type 0
  Improves q p =
      CountsFit A p.0
      × ((has : PrimitiveQuery → Bool) → holds has p.0 ≡ holds has q)
      × (measure p.0 + (if p.1 then 1 else 0) ≤ measure q)

  Keeps-Improves : (q : Query) (p : Query × Bool) → CountsFit A q → Keeps A q false p → Improves q p
  Keeps-Improves q p fits k = (k.counts fits, k.meaning fits, smaller)
    where
      smaller : measure p.0 + (if p.1 then 1 else 0) ≤ measure q
      smaller = elim (Bool-cases p.1) [
        | inl changed ↦ rw changed (omega (arith, k.progress changed refl))
        | inr same ↦ rw same (omega (arith, k.shrinks))
      ]

  -- AND or OR of one query becomes that query: it holds for the same files and is smaller.
  pub flatten-Improves :
      (q : Query) → CountsFit A q → Improves q (flatten_trivial_operations q false)
  flatten-Improves q fits = Keeps-Improves q _ fits (flatten-Keeps A q false)

  -- An AND in an AND and an OR in an OR are spliced in: the query holds for the same files, and is
  -- smaller if anything was spliced in.
  pub inline-Improves : (q : Query) → CountsFit A q → Improves q (inline_suboperations q false)
  inline-Improves q fits = Keeps-Improves q _ fits (inline-Keeps A q false)

  -- Without the repeated ngrams of an AND or an OR, the query holds for the same files, and is smaller
  -- if there were any.
  pub deduplicate-Improves :
      (q : Query) → CountsFit A q → Improves q (deduplicate_primitives q false)
  deduplicate-Improves q fits = Keeps-Improves q _ fits (deduplicate-Keeps A q false)

  -- The two passes that remove a MIN_OF of all, one or none, and the subqueries that hold always: the
  -- query holds for the same files, and is smaller if anything changed. The count does not wrap, since
  -- the first pass leaves no count of zero.
  pub minof-Improves :
      (q : Query)
      → CountsFit A q
      → Improves q
          (propagate_degenerate_queries (simplify_minof q false).0 (simplify_minof q false).1)
  minof-Improves q fits = Keeps-Improves q _ fits (minof-Keeps A q false fits)

  -- The body of the loop, for a query whose counts fit into an `int`: the query holds for the same
  -- files, and is smaller if another round follows.
  pub one_round-Improves : (q : Query) → CountsFit A q → Improves q (one_round q)
  one_round-Improves q fits = Keeps-Improves q _ fits (one_round-Keeps A q fits)
