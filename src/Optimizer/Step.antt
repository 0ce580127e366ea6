-- ===== src/Optimizer/Step.antt =====
-- What a pass of libursa/QueryOptimizer.cpp has to keep, and the passes one after the other.
use ursadb.Prelude.{◌≤◌, ◌<◌, ◌≡◌, refl, ◌∙◌, Bool, true, false, arith, Bool-cases, inl, inr}
use ursadb.Query.Syntax.{PrimitiveQuery, Query}
use ursadb.Query.Meaning.{holds, CountsFit}
use ursadb.Optimizer.Optimize.{measure}

module _ (A : PrimitiveQuery → Type 0) where
  -- From a query and `*changed` to a query and `*changed`: the meaning stays, counts stay small, the
  -- query does not grow, and it gets smaller where the pass reports the first change.
  pub record Keeps (q : Query) (changed : Bool) (p : Query × Bool) : Type 0 where
    pub meaning : CountsFit A q → (has : PrimitiveQuery → Bool) → holds has p.0 ≡ holds has q
    pub counts : CountsFit A q → CountsFit A p.0
    pub shrinks : measure p.0 ≤ measure q
    pub progress : p.1 ≡ true → changed ≡ false → measure p.0 < measure q

  pub Keeps-refl : (q : Query) (changed : Bool) → Keeps q changed (q, changed)
  Keeps-refl q changed = record {
    meaning = λ h has. refl;
    counts = λ h. h;
    shrinks = omega arith;
    progress = λ e f. cc;
  }

  pub Keeps-trans :
      {q : Query} {changed : Bool} {p r : Query × Bool}
      → Keeps q changed p
      → Keeps p.0 p.1 r
      → Keeps q changed r
  Keeps-trans {p = p} first later = record {
    meaning = λ h has. later.meaning (first.counts h) has ∙ first.meaning h has;
    counts = λ h. later.counts (first.counts h);
    shrinks = omega (arith, first.shrinks, later.shrinks);
    progress = λ e f. elim (Bool-cases p.1) [
      | inl here ↦ omega (arith, first.progress here f, later.shrinks)
      | inr not_here ↦ omega (arith, first.shrinks, later.progress e not_here)
    ];
  }
