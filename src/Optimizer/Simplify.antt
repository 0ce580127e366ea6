-- ===== src/Optimizer/Simplify.antt =====
-- `simplify_minof` of libursa/QueryOptimizer.cpp keeps the meaning of a query.
use ursadb.Prelude.{◌≤◌, ◌<◌, ◌≡◌, refl, Bool, true, arith, leb, ◌==◌, Bool-cases, inl, inr}
use ursadb.Query.Syntax.{
  PrimitiveQuery, Query, Queries, length, literal, ngram, and_of, or_of, min_of, nil, cons,
}
use ursadb.Query.Meaning.{holds, all_hold, any_holds, number_hold, CountsFit}
use ursadb.Optimizer.Passes.{is_everything, simplify_minof, any_everything}
use ursadb.Optimizer.Optimize.{size, sizes, measure}
use ursadb.Optimizer.Step.{Keeps, Keeps-refl}
use ursadb.Optimizer.Flatten.{size-pos}

module _ (has : PrimitiveQuery → Bool) where
  -- All subqueries hold when the number that holds is theirs, and one when it is not zero.
  number_hold-all :
      (qs : Queries)
      → (number_hold has qs ≤ length qs) × (all_hold has qs ≡ leb (length qs) (number_hold has qs))
  unfolding number_hold all_hold
  number_hold-all nil = ground arith
  number_hold-all (cons q qs) = ground (arith, number_hold-all qs)

  number_hold-any : (qs : Queries) → any_holds has qs ≡ leb 1 (number_hold has qs)
  unfolding number_hold any_holds
  number_hold-any nil = ground arith
  number_hold-any (cons q qs) = ground (arith, number_hold-any qs)

  pub is_everything-holds : (q : Query) → is_everything q ≡ true → holds has q ≡ true
  unfolding is_everything holds all_hold
  is_everything-holds (and_of nil) h = refl
  is_everything-holds q h = cc

  pub any_everything-holds : (qs : Queries) → any_everything qs ≡ true → any_holds has qs ≡ true
  unfolding any_everything any_holds
  any_everything-holds nil h = cc
  any_everything-holds (cons q qs) h =
      ground (arith, is_everything-holds q, any_everything-holds qs)

pub any_everything-size : (qs : Queries) → any_everything qs ≡ true → 0 < sizes qs
unfolding any_everything sizes
any_everything-size nil h = cc
any_everything-size (cons q qs) h = omega (arith, size-pos q)

-- A count of zero, which `simplify_minof` removes, is excluded: it would wrap.
abbrev pub IsCounted : Query → Type 0
IsCounted (min_of n qs) = 0 < n
IsCounted q = Unit

pub simplify-IsCounted : (q : Query) (changed : Bool) → IsCounted (simplify_minof q changed).0
unfolding simplify_minof
simplify-IsCounted (min_of n qs) changed = elim (Bool-cases (n == length qs)) [
  | inl all ↦ rw (all, simplify_minof) tt
  | inr not_all ↦ elim (Bool-cases (n == 1)) [
    | inl one ↦ rw (not_all, one, simplify_minof) tt
    | inr not_one ↦ elim (Bool-cases (n == 0)) [
      | inl none_needed ↦ rw (not_all, not_one, none_needed, simplify_minof) tt
      | inr more ↦ rw (not_all, not_one, more, simplify_minof) (ground arith)
    ]
  ]
]
simplify-IsCounted (literal v) changed = tt
simplify-IsCounted (ngram g) changed = tt
simplify-IsCounted (and_of qs) changed = tt
simplify-IsCounted (or_of qs) changed = tt

module _ (A : PrimitiveQuery → Type 0) where
  pub simplify-Keeps : (q : Query) (changed : Bool) → Keeps A q changed (simplify_minof q changed)
  unfolding simplify_minof holds CountsFit measure size sizes
  simplify-Keeps (min_of n qs) changed = elim (Bool-cases (n == length qs)) [
    | inl all ↦
        rw (all, simplify_minof)
          (record {
            meaning = λ h has. ground (arith, number_hold-all has qs);
            counts = λ h. h.1;
            shrinks = omega arith;
            progress = λ e f. omega arith;
          })
    | inr not_all ↦ elim (Bool-cases (n == 1)) [
      | inl one ↦
          rw (not_all, one, simplify_minof)
            (record {
              meaning = λ h has. ground (arith, number_hold-any has qs);
              counts = λ h. h.1;
              shrinks = omega arith;
              progress = λ e f. omega arith;
            })
      | inr not_one ↦ elim (Bool-cases (n == 0)) [
        | inl none_needed ↦
            rw (not_all, not_one, none_needed, simplify_minof)
              (record {
                meaning = λ h has. ground arith;
                counts = λ h. tt;
                shrinks = omega arith;
                progress = λ e f. omega arith;
              })
        | inr more ↦
            rw (not_all, not_one, more, simplify_minof) (Keeps-refl A (min_of n qs) changed)
      ]
    ]
  ]
  simplify-Keeps q changed = Keeps-refl A q changed
