-- ===== src/Optimizer/Propagate.antt =====
-- `propagate_degenerate_queries` of libursa/QueryOptimizer.cpp keeps the meaning of a query,
-- after `simplify_minof`.
use ursadb.Prelude.{
  ℕ, zero, suc, ◌+◌, ◌≤◌, ◌<◌, ◌^◌, ◌≡◌, refl, Bool, true, false, arith, ◌==◌, Option, none, some,
  Bool-cases, inl, inr,
}
use ursadb.Query.Syntax.{PrimitiveQuery, Query, Queries, or_of, min_of, nil, cons}
use ursadb.Query.Meaning.{holds, all_hold, number_hold, CountsFit, AllFit}
use ursadb.Optimizer.Passes.{
  q_everything, is_everything, simplify_minof, propagate_min, decrement, any_everything,
  propagate_degenerate_queries,
}
use ursadb.Optimizer.Optimize.{size, sizes, measure}
use ursadb.Optimizer.Step.{Keeps, Keeps-refl, Keeps-trans}
use ursadb.Optimizer.Flatten.{size-pos}
use ursadb.Optimizer.Simplify.{
  is_everything-holds, any_everything-holds, any_everything-size, IsCounted, simplify-Keeps,
  simplify-IsCounted,
}

decrement-suc : (count : ℕ) → suc count < 2 ^ 32 → decrement (suc count) ≡ count
unfolding decrement
decrement-suc count h = omega arith

module _ (A : PrimitiveQuery → Type 0) where
  -- What the loop gives is the same question about fewer subqueries: those that it drops hold always.
  record Reduced (count : ℕ) (qs : Queries) (changed : Bool) (count' : ℕ) (qs' : Queries)
      (changed' : Bool) : Type 0 where
    number :
        (has : PrimitiveQuery → Bool) → count + number_hold has qs' ≡ count' + number_hold has qs
    bound : count' ≤ count
    fits : AllFit A qs → AllFit A qs'
    shrinks : sizes qs' ≤ sizes qs
    progress : changed' ≡ true → changed ≡ false → sizes qs' < sizes qs

  abbrev Propagated : ℕ → Queries → Bool → Option (ℕ × Queries) × Bool → Type 0
  Propagated count qs changed (none, changed') =
      (has : PrimitiveQuery → Bool) → count ≤ number_hold has qs
  Propagated count qs changed (some (count', qs'), changed') =
      Reduced count qs changed count' qs' changed'

  keep-Propagated :
      (count : ℕ) (q : Query) (qs : Queries) (changed : Bool) (p : Option (ℕ × Queries) × Bool)
      → Propagated count qs changed p
      → Propagated count
          (cons q qs)
          changed
          (elim p.0 [ none ↦ none | some (count', qs') ↦ some (count', cons q qs') ], p.1)
  unfolding number_hold AllFit sizes
  keep-Propagated count q qs changed (none, changed') h = λ has. omega (arith, h has)
  keep-Propagated count q qs changed (some (count', qs'), changed') h = record {
    number = λ has. omega (arith, h.number has);
    bound = h.bound;
    fits = λ f. (f.0, h.fits f.1);
    shrinks = omega (arith, h.shrinks);
    progress = λ e f. omega (arith, h.progress e f);
  }

  drop-Propagated :
      (count : ℕ) (q : Query) (qs : Queries) (changed : Bool) (p : Option (ℕ × Queries) × Bool)
      → is_everything q ≡ true
      → Propagated count qs true p
      → Propagated (suc count) (cons q qs) changed p
  unfolding number_hold AllFit sizes
  drop-Propagated count q qs changed (none, changed') always h =
      λ has. ground (arith, h has, is_everything-holds has q always)
  drop-Propagated count q qs changed (some (count', qs'), changed') always h = record {
    number = λ has. ground (arith, h.number has, is_everything-holds has q always);
    bound = omega (arith, h.bound);
    fits = λ f. h.fits f.1;
    shrinks = omega (arith, h.shrinks);
    progress = λ e f. omega (arith, h.shrinks, size-pos q);
  }

  propagate_min-Propagated :
      (count : ℕ) (qs : Queries) (changed : Bool)
      → 0 < count
      → count < 2 ^ 32
      → Propagated count qs changed (propagate_min count qs changed)
  unfolding number_hold propagate_min
  propagate_min-Propagated zero qs changed pos small = absurd (omega arith)
  propagate_min-Propagated count nil changed pos small = record {
    number = λ has. refl;
    bound = omega arith;
    fits = λ f. f;
    shrinks = omega arith;
    progress = λ e f. cc;
  }
  propagate_min-Propagated (suc count) (cons q qs) changed pos small =
      elim (Bool-cases (is_everything q)) [
        | inr kept ↦
            rw (kept, propagate_min)
              (keep-Propagated (suc count) q qs changed _
                (propagate_min-Propagated (suc count) qs changed pos small))
        | inl always ↦ elim (Bool-cases (count == 0)) [
          | inl last ↦
              rw (always, propagate_min)
                (rw (decrement-suc count small)
                  (rw (last) (λ has. ground (arith, is_everything-holds has q always))))
          | inr more ↦
              let rest = propagate_min-Propagated count qs true (ground arith) (omega arith) in
              rw (always, propagate_min)
                (rw (decrement-suc count small) (
                  rw (more) (
                    rw (decrement-suc count small)
                      (drop-Propagated count q qs changed _ always rest))))
        ]
      ]

  -- The MIN_OF, or the query for everything, that the loop's outcome stands for.
  Propagated-Keeps :
      (n : ℕ) (qs : Queries) (changed : Bool) (p : Option (ℕ × Queries) × Bool)
      → Propagated n qs changed p
      → Keeps A
          (min_of n qs)
          changed
          (elim p.0 [ none ↦ q_everything | some (count, qs') ↦ min_of count qs' ], p.1)
  unfolding holds CountsFit measure size sizes all_hold
  Propagated-Keeps n qs changed (none, changed') h = record {
    meaning = λ f has. ground (arith, h has);
    counts = λ f. tt;
    shrinks = omega arith;
    progress = λ e f. omega arith;
  }
  Propagated-Keeps n qs changed (some (count, qs'), changed') h = record {
    meaning = λ f has. ground (arith, h.number has);
    counts = λ f. (omega (arith, h.bound), h.fits f.1);
    shrinks = omega (arith, h.shrinks);
    progress = λ e f. omega (arith, h.progress e f);
  }

  propagate-Keeps :
      (q : Query) (changed : Bool)
      → IsCounted q
      → CountsFit A q
      → Keeps A q changed (propagate_degenerate_queries q changed)
  unfolding propagate_degenerate_queries holds CountsFit measure size sizes
  propagate-Keeps (min_of n qs) changed counted fits =
      Propagated-Keeps n qs changed _
        (propagate_min-Propagated n qs changed counted (omega (arith, fits.0)))
  propagate-Keeps (or_of qs) changed counted fits = elim (Bool-cases (any_everything qs)) [
    | inl always ↦
        rw (always, propagate_degenerate_queries)
          (record {
            meaning = λ f has. ground (arith, any_everything-holds has qs always);
            counts = λ f. tt;
            shrinks = omega arith;
            progress = λ e f. omega (arith, any_everything-size qs always);
          })
    | inr never ↦ rw (never, propagate_degenerate_queries) (Keeps-refl A (or_of qs) changed)
  ]
  propagate-Keeps q changed counted fits = Keeps-refl A q changed

  -- The two passes one after the other.
  pub minof-Keeps :
      (q : Query) (changed : Bool)
      → CountsFit A q
      → Keeps A q changed
          (propagate_degenerate_queries (simplify_minof q changed).0 (simplify_minof q changed).1)
  minof-Keeps q changed fits =
      let simpler = simplify-Keeps A q changed in
      Keeps-trans A simpler
        (propagate-Keeps _ _ (simplify-IsCounted q changed) (simpler.counts fits))
