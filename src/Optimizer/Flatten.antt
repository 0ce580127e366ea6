-- ===== src/Optimizer/Flatten.antt =====
-- `flatten_trivial_operations` and `inline_suboperations` of libursa/QueryOptimizer.cpp keep the
-- meaning of a query.
use ursadb.Prelude.{
  ◌+◌, ◌*◌, ◌≤◌, ◌<◌, ◌≡◌, refl, Bool, true, false, ◌&&◌, ◌||◌, arith, some, Option-cases, inl, inr,
}
use mathlib.Core.Path.{ap, subst}
use ursadb.Query.Syntax.{
  PrimitiveQuery, Query, Queries, QueryType, and_type, or_type, append, literal, ngram, and_of,
  or_of, min_of, nil, cons,
}
use ursadb.Query.Meaning.{holds, all_hold, any_holds, CountsFit, AllFit}
use ursadb.Optimizer.Passes.{flatten_trivial_operations, of_type, inline_all, inline_suboperations}
use ursadb.Optimizer.Optimize.{size, sizes, measure}
use ursadb.Optimizer.Step.{Keeps, Keeps-refl}

pub size-pos : (q : Query) → 0 < size q
unfolding size
size-pos (literal v) = omega arith
size-pos (ngram g) = omega arith
size-pos (and_of qs) = omega arith
size-pos (or_of qs) = omega arith
size-pos (min_of n qs) = omega arith

-- The measure is that of the size, with one more for MIN_OF.
pub measure_bounds : (q : Query) → (2 * size q ≤ measure q) × (measure q ≤ 1 + 2 * size q)
unfolding measure
measure_bounds (literal v) = omega arith
measure_bounds (ngram g) = omega arith
measure_bounds (and_of qs) = omega arith
measure_bounds (or_of qs) = omega arith
measure_bounds (min_of n qs) = omega arith

-- Splicing a list of conjuncts, or of disjuncts, into another.
module _ (has : PrimitiveQuery → Bool) where
  all_hold-append :
      (qs rs : Queries) → all_hold has (append qs rs) ≡ (all_hold has qs && all_hold has rs)
  unfolding all_hold
  all_hold-append nil rs = refl
  all_hold-append (cons q qs) rs = ground (arith, all_hold-append qs rs)

  any_holds-append :
      (qs rs : Queries) → any_holds has (append qs rs) ≡ (any_holds has qs || any_holds has rs)
  unfolding any_holds
  any_holds-append nil rs = refl
  any_holds-append (cons q qs) rs = ground (arith, any_holds-append qs rs)

  inline_all-and :
      (qs : Queries) (changed : Bool)
      → all_hold has (inline_all and_type qs changed).0 ≡ all_hold has qs
  unfolding inline_all of_type all_hold
  inline_all-and nil changed = refl
  inline_all-and (cons (and_of rs) qs) changed =
      ground (arith, all_hold-append rs (inline_all and_type qs true).0, inline_all-and qs true)
  inline_all-and (cons q qs) changed = ground (arith, inline_all-and qs changed)

  inline_all-or :
      (qs : Queries) (changed : Bool)
      → any_holds has (inline_all or_type qs changed).0 ≡ any_holds has qs
  unfolding inline_all of_type any_holds
  inline_all-or nil changed = refl
  inline_all-or (cons (or_of rs) qs) changed =
      ground (arith, any_holds-append rs (inline_all or_type qs true).0, inline_all-or qs true)
  inline_all-or (cons q qs) changed = ground (arith, inline_all-or qs changed)

sizes-append : (qs rs : Queries) → sizes (append qs rs) ≡ sizes qs + sizes rs
unfolding sizes
sizes-append nil rs = omega arith
sizes-append (cons q qs) rs = omega (arith, sizes-append qs rs)

module _ (A : PrimitiveQuery → Type 0) where
  pub flatten-Keeps :
      (q : Query) (changed : Bool) → Keeps A q changed (flatten_trivial_operations q changed)
  unfolding flatten_trivial_operations holds CountsFit measure
  flatten-Keeps (and_of (cons q nil)) changed = record {
    meaning = λ h has. ground arith;
    counts = λ h. h.0;
    shrinks = omega (arith, measure_bounds q);
    progress = λ e f. omega (arith, measure_bounds q);
  }
  flatten-Keeps (or_of (cons q nil)) changed = record {
    meaning = λ h has. ground arith;
    counts = λ h. h.0;
    shrinks = omega (arith, measure_bounds q);
    progress = λ e f. omega (arith, measure_bounds q);
  }
  flatten-Keeps q changed = Keeps-refl A q changed

  AllFit-append : (qs rs : Queries) → AllFit A qs → AllFit A rs → AllFit A (append qs rs)
  unfolding AllFit
  AllFit-append nil rs h k = k
  AllFit-append (cons q qs) rs h k = (h.0, AllFit-append qs rs h.1 k)

  -- What is spliced in is smaller by a node.
  of_type-some :
      (type : QueryType) (q : Query) (rs : Queries)
      → of_type type q ≡ some rs
      → (size q ≡ 1 + sizes rs) × (CountsFit A q → AllFit A rs)
  unfolding of_type size CountsFit
  of_type-some and_type (and_of qs) rs h =
      let e : qs ≡ rs = cc in (ap (λ t. 1 + sizes t) e, λ f. subst (AllFit A) e f)
  of_type-some or_type (or_of qs) rs h =
      let e : qs ≡ rs = cc in (ap (λ t. 1 + sizes t) e, λ f. subst (AllFit A) e f)
  of_type-some _ _ rs h = cc

  -- The size and the counts of what `inline_all` gives.
  record Inlined (qs : Queries) (changed : Bool) (p : Queries × Bool) : Type 0 where
    fits : AllFit A qs → AllFit A p.0
    shrinks : sizes p.0 ≤ sizes qs
    progress : p.1 ≡ true → changed ≡ false → sizes p.0 < sizes qs

  inline_all-Inlined :
      (type : QueryType) (qs : Queries) (changed : Bool)
      → Inlined qs changed (inline_all type qs changed)
  unfolding inline_all sizes AllFit
  inline_all-Inlined type nil changed = record {
    fits = λ h. h;
    shrinks = omega arith;
    progress = λ e f. cc;
  }
  inline_all-Inlined type (cons q qs) changed = elim (Option-cases (of_type type q)) [
    | inl other ↦
        let rest = inline_all-Inlined type qs changed in
        rw (other, inline_all)
          (record {
            fits = λ h. (h.0, rest.fits h.1);
            shrinks = omega (arith, rest.shrinks);
            progress = λ e f. omega (arith, rest.progress e f);
          })
    | inr (rs, same) ↦
        let rest = inline_all-Inlined type qs true in
        let (node, fit) = of_type-some type q rs same in
        let spliced = sizes-append rs (inline_all type qs true).0 in
        rw (same, inline_all)
          (record {
            fits = λ h. AllFit-append rs _ (fit h.0) (rest.fits h.1);
            shrinks = omega (arith, rest.shrinks, node, spliced);
            progress = λ e f. omega (arith, rest.shrinks, node, spliced);
          })
  ]

  pub inline-Keeps :
      (q : Query) (changed : Bool) → Keeps A q changed (inline_suboperations q changed)
  unfolding inline_suboperations holds CountsFit measure
  inline-Keeps (and_of qs) changed =
      let inlined = inline_all-Inlined and_type qs changed in
      record {
        meaning = λ h has. inline_all-and has qs changed;
        counts = inlined.fits;
        shrinks = omega (arith, inlined.shrinks);
        progress = λ e f. omega (arith, inlined.progress e f);
      }
  inline-Keeps (or_of qs) changed =
      let inlined = inline_all-Inlined or_type qs changed in
      record {
        meaning = λ h has. inline_all-or has qs changed;
        counts = inlined.fits;
        shrinks = omega (arith, inlined.shrinks);
        progress = λ e f. omega (arith, inlined.progress e f);
      }
  inline-Keeps q changed = Keeps-refl A q changed
