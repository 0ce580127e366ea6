-- ===== src/Optimizer/Deduplicate.antt =====
-- `deduplicate_primitives` of libursa/QueryOptimizer.cpp keeps the meaning of a query.
use ursadb.Prelude.{
  ◌≤◌, ◌<◌, ◌≡◌, refl, ap, Bool, true, false, not, ◌&&◌, ◌||◌, List, [], ◌∷◌, arith, some,
  Option-cases, Bool-cases, inl, inr,
}
use ursadb.Core.{IndexType, raw}
use ursadb.Query.Syntax.{
  PrimitiveQuery, less, Query, Queries, literal, ngram, and_of, or_of, nil, cons,
}
use ursadb.Query.Meaning.{holds, all_hold, any_holds, CountsFit, AllFit}
use ursadb.Optimizer.Passes.{contains, primitive_of, deduplicate, deduplicate_primitives}
use ursadb.Optimizer.Optimize.{sizes, measure}
use ursadb.Optimizer.Step.{Keeps, Keeps-refl}
use ursadb.Optimizer.Flatten.{size-pos}

pub raw-injective : (s t : IndexType) → raw s ≡ raw t → s ≡ t
unfolding raw
raw-injective s t h = ground arith

-- `operator<` of `PrimitiveQuery` is a linear order: neither less than the other is equality.
pub eq_of_not_less : (p q : PrimitiveQuery) → less p q ≡ false → less q p ≡ false → p ≡ q
unfolding less
eq_of_not_less p q h k = ground (arith, raw-injective p.itype q.itype)

module _ (has : PrimitiveQuery → Bool) where
  all_seen : List PrimitiveQuery → Bool
  all_seen [] = true
  all_seen (g ∷ gs) = has g && all_seen gs

  any_seen : List PrimitiveQuery → Bool
  any_seen [] = false
  any_seen (g ∷ gs) = has g || any_seen gs

  same_ngram : (p g : PrimitiveQuery) → not (less p g) && not (less g p) ≡ true → has p ≡ has g
  same_ngram p g h = ap has (eq_of_not_less p g (ground arith) (ground arith))

  all_seen-contains :
      (seen : List PrimitiveQuery) (g : PrimitiveQuery)
      → contains seen g ≡ true
      → all_seen seen ≡ true
      → has g ≡ true
  unfolding all_seen contains
  all_seen-contains [] g c h = cc
  all_seen-contains (p ∷ ps) g c h = ground (arith, all_seen-contains ps g, same_ngram p g)

  any_seen-contains :
      (seen : List PrimitiveQuery) (g : PrimitiveQuery)
      → contains seen g ≡ true
      → has g ≡ true
      → any_seen seen ≡ true
  unfolding any_seen contains
  any_seen-contains [] g c h = cc
  any_seen-contains (p ∷ ps) g c h = ground (arith, any_seen-contains ps g, same_ngram p g)

  holds-primitive_of :
      (q : Query) (g : PrimitiveQuery) → primitive_of q ≡ some g → holds has q ≡ has g
  unfolding primitive_of holds
  holds-primitive_of (literal v) g h = ground arith
  holds-primitive_of (ngram g') g h = let e : g' ≡ g = cc in ap has e
  holds-primitive_of q g h = cc

  -- Beside what was seen, the duplicates say nothing new.
  deduplicate-and :
      (qs : Queries) (seen : List PrimitiveQuery) (changed : Bool)
      → (all_seen seen && all_hold has (deduplicate seen qs changed).0)
        ≡ (all_seen seen && all_hold has qs)
  unfolding deduplicate all_hold all_seen
  deduplicate-and nil seen changed = refl
  deduplicate-and (cons q qs) seen changed = elim (Option-cases (primitive_of q)) [
    | inl other ↦ rw (other, deduplicate) (ground (arith, deduplicate-and qs seen changed))
    | inr (g, e) ↦ elim (Bool-cases (contains seen g)) [
      | inl old ↦
          rw (e, old, deduplicate)
            (ground (
              arith,
              holds-primitive_of q g e,
              all_seen-contains seen g old,
              deduplicate-and qs seen true,
            ))
      | inr new ↦
          rw (e, new, deduplicate)
            (ground (arith, holds-primitive_of q g e, deduplicate-and qs (g ∷ seen) changed))
    ]
  ]

  deduplicate-or :
      (qs : Queries) (seen : List PrimitiveQuery) (changed : Bool)
      → (any_seen seen || any_holds has (deduplicate seen qs changed).0)
        ≡ (any_seen seen || any_holds has qs)
  unfolding deduplicate any_holds any_seen
  deduplicate-or nil seen changed = refl
  deduplicate-or (cons q qs) seen changed = elim (Option-cases (primitive_of q)) [
    | inl other ↦ rw (other, deduplicate) (ground (arith, deduplicate-or qs seen changed))
    | inr (g, e) ↦ elim (Bool-cases (contains seen g)) [
      | inl old ↦
          rw (e, old, deduplicate)
            (ground (
              arith,
              holds-primitive_of q g e,
              any_seen-contains seen g old,
              deduplicate-or qs seen true,
            ))
      | inr new ↦
          rw (e, new, deduplicate)
            (ground (arith, holds-primitive_of q g e, deduplicate-or qs (g ∷ seen) changed))
    ]
  ]

module _ (A : PrimitiveQuery → Type 0) where
  -- The size and the counts of what `deduplicate` gives.
  record Shorter (qs : Queries) (changed : Bool) (p : Queries × Bool) : Type 0 where
    fits : AllFit A qs → AllFit A p.0
    shrinks : sizes p.0 ≤ sizes qs
    progress : p.1 ≡ true → changed ≡ false → sizes p.0 < sizes qs

  -- A query is kept in front of what is shorter.
  cons-Shorter :
      (q : Query) (qs : Queries) (changed : Bool) (p : Queries × Bool)
      → Shorter qs changed p
      → Shorter (cons q qs) changed (cons q p.0, p.1)
  unfolding sizes AllFit
  cons-Shorter q qs changed p rest = record {
    fits = λ h. (h.0, rest.fits h.1);
    shrinks = omega (arith, rest.shrinks);
    progress = λ e f. omega (arith, rest.progress e f);
  }

  deduplicate-Shorter :
      (qs : Queries) (seen : List PrimitiveQuery) (changed : Bool)
      → Shorter qs changed (deduplicate seen qs changed)
  unfolding deduplicate sizes AllFit
  deduplicate-Shorter nil seen changed = record {
    fits = λ h. h;
    shrinks = omega arith;
    progress = λ e f. cc;
  }
  deduplicate-Shorter (cons q qs) seen changed = elim (Option-cases (primitive_of q)) [
    | inl other ↦
        rw (other, deduplicate) (cons-Shorter q qs changed _ (deduplicate-Shorter qs seen changed))
    | inr (g, e) ↦ elim (Bool-cases (contains seen g)) [
      | inl old ↦
          let rest = deduplicate-Shorter qs seen true in
          rw (e, old, deduplicate)
            (record {
              fits = λ h. rest.fits h.1;
              shrinks = omega (arith, rest.shrinks);
              progress = λ e f. omega (arith, rest.shrinks, size-pos q);
            })
      | inr new ↦
          rw (e, new, deduplicate)
            (cons-Shorter q qs changed _ (deduplicate-Shorter qs (g ∷ seen) changed))
    ]
  ]

  pub deduplicate-Keeps :
      (q : Query) (changed : Bool) → Keeps A q changed (deduplicate_primitives q changed)
  unfolding deduplicate_primitives holds CountsFit measure all_seen any_seen
  deduplicate-Keeps (and_of qs) changed =
      let shorter = deduplicate-Shorter qs [] changed in
      record {
        meaning = λ h has. deduplicate-and has qs [] changed;
        counts = shorter.fits;
        shrinks = omega (arith, shorter.shrinks);
        progress = λ e f. omega (arith, shorter.progress e f);
      }
  deduplicate-Keeps (or_of qs) changed =
      let shorter = deduplicate-Shorter qs [] changed in
      record {
        meaning = λ h has. deduplicate-or has qs [] changed;
        counts = shorter.fits;
        shrinks = omega (arith, shorter.shrinks);
        progress = λ e f. omega (arith, shorter.progress e f);
      }
  deduplicate-Keeps q changed = Keeps-refl A q changed
