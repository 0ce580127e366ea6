-- ===== src/Optimizer/Optimized.antt =====
-- `q_optimize` (libursa/QueryOptimizer.cpp) ends, and what it returns has the meaning of the query.
use ursadb.Prelude.{
  ℕ, zero, suc, ◌<◌, ◌≡◌, refl, ap, Bool, false, ◌&&◌, arith, ◌∙◌, leb, Result, ok, ◌>>=◌,
  Bool-cases, inl, inr,
}
use ursadb.Query.Syntax.{
  PrimitiveQuery, Query, Queries, literal, ngram, and_of, or_of, min_of, nil, cons,
}
use ursadb.Query.Meaning.{holds, all_hold, any_holds, number_hold, CountsFit, AllFit}
use ursadb.Optimizer.Passes.{
  query_heuristic_comparer, insert_sorted, stable_sort, reorder_subqueries,
}
use ursadb.Optimizer.Optimize.{
  one_round, optimize_loop, measure, settle, q_optimize, simplify_subqueries,
}
use ursadb.Optimizer.Step.{Keeps, Keeps-trans}
use ursadb.Optimizer.Flatten.{flatten-Keeps, inline-Keeps}
use ursadb.Optimizer.Deduplicate.{deduplicate-Keeps}
use ursadb.Optimizer.Propagate.{minof-Keeps}

-- Sorting the subqueries of an AND.
insert_sorted-all :
    (has : PrimitiveQuery → Bool) (q : Query) (qs : Queries)
    → all_hold has (insert_sorted q qs) ≡ (holds has q && all_hold has qs)
unfolding insert_sorted all_hold
insert_sorted-all has q nil = refl
insert_sorted-all has q (cons r rs) = ground (arith, insert_sorted-all has q rs)

stable_sort-all :
    (has : PrimitiveQuery → Bool) (qs : Queries) → all_hold has (stable_sort qs) ≡ all_hold has qs
unfolding stable_sort all_hold
stable_sort-all has nil = refl
stable_sort-all has (cons q qs) =
    ground (arith, stable_sort-all has qs, insert_sorted-all has q (stable_sort qs))

module _ (A : PrimitiveQuery → Type 0) where
  -- A round of the loop keeps the meaning, and makes the query smaller when it changes it.
  pub one_round-Keeps : (q : Query) → CountsFit A q → Keeps A q false (one_round q)
  unfolding one_round
  one_round-Keeps q fits =
      let first = Keeps-trans A (flatten-Keeps A q false) (inline-Keeps A _ _) in
      let second = Keeps-trans A first (deduplicate-Keeps A _ _) in
      Keeps-trans A second (minof-Keeps A _ _ (second.counts fits))

  -- The query that is returned, which says the same.
  abbrev pub Same : Query → Query → Type 0
  Same r q = CountsFit A r × ((has : PrimitiveQuery → Bool) → holds has r ≡ holds has q)

  abbrev pub Returns : Result Query → Query → Type 0
  Returns m q = (r : Query) × (m ≡ ok r) × Same r q

  optimize_loop-Returns :
      (fuel : ℕ) (q : Query) → CountsFit A q → measure q < fuel → Returns (optimize_loop fuel q) q
  unfolding optimize_loop
  optimize_loop-Returns zero q fits enough = absurd (omega arith)
  optimize_loop-Returns (suc fuel) q fits enough =
      let round = one_round-Keeps q fits in
      let q' = (one_round q).0 in
      elim (Bool-cases (one_round q).1) [
        | inl again ↦
            let (r, e, (fit, same)) =
              optimize_loop-Returns fuel q' (round.counts fits)
                (omega (arith, round.progress again refl)) in
            rw (again, optimize_loop) (r, e, (fit, λ has. same has ∙ round.meaning fits has))
        | inr done ↦
            rw (done, optimize_loop) (q', refl, (round.counts fits, λ has. round.meaning fits has))
      ]

  insert_sorted-AllFit :
      (q : Query) (qs : Queries) → CountsFit A q → AllFit A qs → AllFit A (insert_sorted q qs)
  unfolding insert_sorted AllFit
  insert_sorted-AllFit q nil f fs = (f, tt)
  insert_sorted-AllFit q (cons r rs) f fs = elim (Bool-cases (query_heuristic_comparer r q)) [
    | inl behind ↦ rw (behind, insert_sorted) (fs.0, insert_sorted-AllFit q rs f fs.1)
    | inr before ↦ rw (before, insert_sorted) (f, fs)
  ]

  stable_sort-AllFit : (qs : Queries) → AllFit A qs → AllFit A (stable_sort qs)
  unfolding stable_sort AllFit
  stable_sort-AllFit nil fs = tt
  stable_sort-AllFit (cons q qs) fs =
      insert_sorted-AllFit q (stable_sort qs) fs.0 (stable_sort-AllFit qs fs.1)

  reorder-Same : (q : Query) → CountsFit A q → Same (reorder_subqueries q) q
  unfolding reorder_subqueries holds CountsFit
  reorder-Same (and_of qs) fits = (stable_sort-AllFit qs fits, λ has. stable_sort-all has qs)
  reorder-Same q fits = (fits, λ has. refl)

  settle-Returns : (q : Query) → CountsFit A q → Returns (settle q) q
  unfolding settle
  settle-Returns q fits =
      let (r, e, (fit, same)) = optimize_loop-Returns (suc (measure q)) q fits (omega arith) in
      let (fit', same') = reorder-Same r fit in
      (
        reorder_subqueries r,
        ap (λ m. m >>= λ q'. ok (reorder_subqueries q')) e,
        (fit', λ has. same' has ∙ same has),
      )

  -- The subqueries that are returned, each of which says the same.
  record SameEach (rs qs : Queries) : Type 0 where
    fits : AllFit A rs
    all : (has : PrimitiveQuery → Bool) → all_hold has rs ≡ all_hold has qs
    any : (has : PrimitiveQuery → Bool) → any_holds has rs ≡ any_holds has qs
    number : (has : PrimitiveQuery → Bool) → number_hold has rs ≡ number_hold has qs

  cons-SameEach :
      (r q : Query) (rs qs : Queries) → Same r q → SameEach rs qs → SameEach (cons r rs) (cons q qs)
  unfolding AllFit all_hold any_holds number_hold
  cons-SameEach r q rs qs head tail = record {
    fits = (head.0, tail.fits);
    all = λ has. ground (arith, head.1 has, tail.all has);
    any = λ has. ground (arith, head.1 has, tail.any has);
    number = λ has. ground (arith, head.1 has, tail.number has);
  }

  -- What is returned after the subqueries are replaced.
  then-Returns :
      {m : Result Queries} {rs : Queries} (f : Queries → Query) (qs : Queries)
      → m ≡ ok rs
      → Same (f rs) (f qs)
      → Returns (m >>= λ qs'. settle (f qs')) (f qs)
  then-Returns {rs = rs} f qs e (fit, same) =
      let (r, e', (fit', same')) = settle-Returns (f rs) fit in
      (r, ap (λ m. m >>= λ qs'. settle (f qs')) e ∙ e', (fit', λ has. same' has ∙ same has))

  mutual
    unfolding q_optimize CountsFit holds all_hold any_holds number_hold

    q_optimize-Returns : (q : Query) → CountsFit A q → Returns (q_optimize q) q
    q_optimize-Returns (literal v) fits = (literal v, refl, (fits, λ has. refl))
    q_optimize-Returns (ngram g) fits = (ngram g, refl, (fits, λ has. refl))
    q_optimize-Returns (and_of qs) fits =
        let (rs, e, same) = simplify-Returns qs fits in
        then-Returns and_of qs e (same.fits, λ has. same.all has)
    q_optimize-Returns (or_of qs) fits =
        let (rs, e, same) = simplify-Returns qs fits in
        then-Returns or_of qs e (same.fits, λ has. same.any has)
    q_optimize-Returns (min_of n qs) fits =
        let (rs, e, same) = simplify-Returns qs fits.1 in
        then-Returns (min_of n) qs e ((fits.0, same.fits), λ has. ap (leb n) (same.number has))

    simplify-Returns :
        (qs : Queries)
        → AllFit A qs
        → (rs : Queries) × (simplify_subqueries qs ≡ ok rs) × SameEach rs qs
    simplify-Returns nil fits = (
      nil,
      refl,
      record { fits = tt; all = λ has. refl; any = λ has. refl; number = λ has. refl },
    )
    simplify-Returns (cons q qs) fits =
        let (r, e, same) = q_optimize-Returns q fits.0 in
        let (rs, e', same') = simplify-Returns qs fits.1 in
        (cons r rs, rw (e, e', simplify_subqueries) refl, cons-SameEach r q rs qs same same')

  -- For a query whose counts fit into an `int`, `q_optimize` ends, and the query that it returns holds
  -- for the same files; its counts fit as well, and it asks for no other ngrams.
  pub q_optimize-holds :
      (q : Query)
      → CountsFit A q
      → (r : Query) × (q_optimize q ≡ ok r)
        × CountsFit A r
        × ((has : PrimitiveQuery → Bool) → holds has r ≡ holds has q)
  q_optimize-holds q fits = let (r, e, (fit, same)) = q_optimize-Returns q fits in (r, e, fit, same)
