-- ===== src/QueryResult/Branches.antt =====
-- The branches of `QueryResult::do_min_of_real` (libursa/QueryResult.cpp), for the runs that are left.
use ursadb.Prelude.{
  ℕ, suc, ◌≤◌, ◌<◌, ◌≡◌, refl, ap, Bool, ◌&&◌, ◌||◌, List, [], ◌∷◌, arith, ltb, leb, ◌==◌, length,
  Result, ok, ◌>>=◌, elem, Bool-cases, inl, inr,
}
use ursadb.SortedRun.Runs.{SortedRun}
use ursadb.SortedRun.Sets.{set_union, set_intersection, elem-set_union, elem-set_intersection}
use ursadb.SortedRun.Represents.{Represents, do_or-Represents, do_and-Represents}
use ursadb.SortedRun.Common.{AllRepresent, count_in, pick_common-Represents}
use ursadb.QueryResult.Ops.{
  QueryResult, of_results, empty, everything, fold_and, fold_or, fold_runs, min_of_runs,
}
use ursadb.QueryResult.Sets.{Means, all, just, empty-Means, Means-ext}

count_in-le : (a : ℕ) (idss : List (List ℕ)) → count_in a idss ≤ length idss
count_in-le a [] = omega arith
count_in-le a (ids ∷ idss) = ground (arith, count_in-le a idss)

length-AllRepresent :
    (rs : List SortedRun) (idss : List (List ℕ)) → AllRepresent rs idss → length rs ≡ length idss
length-AllRepresent [] [] rep = refl
length-AllRepresent [] (ids ∷ idss) rep = elim rep [ ]
length-AllRepresent (r ∷ rs) [] rep = elim rep [ ]
length-AllRepresent (r ∷ rs) (ids ∷ idss) rep = ap suc (length-AllRepresent rs idss rep.1)

-- A run with the members that `member` tells.
abbrev RunOf : Result SortedRun → (ℕ → Bool) → Type 0
RunOf result member =
    (t : SortedRun) × (ids : List ℕ) × (result ≡ ok t)
    × Represents t ids
    × ((a : ℕ) → elem a ids ≡ member a)

fold_and-RunOf :
    (rs : List SortedRun) (idss : List (List ℕ)) (r : SortedRun) (ids : List ℕ)
    → AllRepresent rs idss
    → Represents r ids
    → RunOf (fold_and r rs) (λ a. elem a ids && leb (length idss) (count_in a idss))
unfolding fold_and
fold_and-RunOf [] [] r ids rep self = (r, ids, refl, self, λ a. ground arith)
fold_and-RunOf [] (ids' ∷ idss) r ids rep self = elim rep [ ]
fold_and-RunOf (r' ∷ rs) [] r ids rep self = elim rep [ ]
fold_and-RunOf (r' ∷ rs) (ids' ∷ idss) r ids rep self =
    let (t, done, new) = do_and-Represents self rep.0 in
    let (u, all_ids, last, both, members) =
      fold_and-RunOf rs idss t (set_intersection ids' ids) rep.1 new in
    (
      u,
      all_ids,
      rw done last,
      both,
      λ a. ground (
        arith,
        members a,
        elem-set_intersection a 0 ids' ids (rep.0).is_run self.is_run,
        count_in-le a idss,
      ),
    )

fold_or-RunOf :
    (rs : List SortedRun) (idss : List (List ℕ)) (r : SortedRun) (ids : List ℕ)
    → AllRepresent rs idss
    → Represents r ids
    → RunOf (fold_or r rs) (λ a. elem a ids || leb 1 (count_in a idss))
unfolding fold_or
fold_or-RunOf [] [] r ids rep self = (r, ids, refl, self, λ a. ground arith)
fold_or-RunOf [] (ids' ∷ idss) r ids rep self = elim rep [ ]
fold_or-RunOf (r' ∷ rs) [] r ids rep self = elim rep [ ]
fold_or-RunOf (r' ∷ rs) (ids' ∷ idss) r ids rep self =
    let (t, done, new) = do_or-Represents self rep.0 in
    let (u, all_ids, last, both, members) =
      fold_or-RunOf rs idss t (set_union ids' ids) rep.1 new in
    (u, all_ids, rw done last, both, λ a. ground (arith, members a, elem-set_union a ids' ids))

-- A result with the members that `member` tells.
abbrev pub ResultOf : Result QueryResult → (ℕ → Bool) → Type 0
ResultOf result member = (q : QueryResult) × (result ≡ ok q) × Means q member

of_RunOf :
    {result : Result SortedRun} {m : ℕ → Bool}
    → RunOf result m
    → ResultOf (result >>= λ r. ok (of_results r)) m
of_RunOf (t, ids, e, rep, f) = (of_results t, rw e, just ids refl rep f)

pub ResultOf-ext :
    {result : Result QueryResult} {m n : ℕ → Bool}
    → ((a : ℕ) → m a ≡ n a)
    → ResultOf result m
    → ResultOf result n
ResultOf-ext h (q, e, l) = (q, e, Means-ext h l)

fold_and_all :
    (runs : List SortedRun) (idss : List (List ℕ))
    → 0 < length runs
    → AllRepresent runs idss
    → ResultOf (fold_runs fold_and runs) (λ a. leb (length idss) (count_in a idss))
unfolding fold_runs
fold_and_all [] idss h rep = absurd (omega arith)
fold_and_all (r ∷ rs) [] h rep = elim rep [ ]
fold_and_all (r ∷ rs) (ids ∷ idss) h rep =
    ResultOf-ext (λ a. ground (arith, count_in-le a idss))
      (of_RunOf (fold_and-RunOf rs idss r ids rep.1 rep.0))

fold_or_all :
    (runs : List SortedRun) (idss : List (List ℕ))
    → 0 < length runs
    → AllRepresent runs idss
    → ResultOf (fold_runs fold_or runs) (λ a. leb 1 (count_in a idss))
unfolding fold_runs
fold_or_all [] idss h rep = absurd (omega arith)
fold_or_all (r ∷ rs) [] h rep = elim rep [ ]
fold_or_all (r ∷ rs) (ids ∷ idss) h rep =
    ResultOf-ext (λ a. ground arith) (of_RunOf (fold_or-RunOf rs idss r ids rep.1 rep.0))

-- Every branch gives the ids that are in at least `cutoff` of the runs.
pub min_of_runs-ResultOf :
    (cutoff : ℕ) (runs : List SortedRun) (idss : List (List ℕ))
    → AllRepresent runs idss
    → ResultOf (min_of_runs cutoff runs) (λ a. leb cutoff (count_in a idss))
min_of_runs-ResultOf cutoff runs idss rep = elim (Bool-cases (leb cutoff 0)) [
  | inl zero_cutoff ↦
      (everything, unfold min_of_runs in rw zero_cutoff, all refl (λ a. ground arith))
  | inr positive ↦ elim (Bool-cases (ltb (length runs) cutoff)) [
    | inl large ↦ (
      empty,
      unfold min_of_runs in rw (positive, large),
      Means-ext (λ a. ground (arith, below a)) empty-Means,
    )
    | inr fits ↦ elim (Bool-cases (cutoff == length runs)) [
      | inl every ↦
          let (q, e, l) = fold_and_all runs idss (ground arith) rep in
          (
            q,
            unfold min_of_runs in rw (positive, fits, every) e,
            Means-ext (λ a. ground (arith, sizes)) l,
          )
      | inr fewer ↦ elim (Bool-cases (cutoff == 1)) [
        | inl one ↦
            let (q, e, l) = fold_or_all runs idss (ground arith) rep in
            (
              q,
              unfold min_of_runs in rw (positive, fits, fewer, one) e,
              Means-ext (λ a. ground arith) l,
            )
        | inr more ↦
            let (q, e, l) = of_RunOf (pick_common-Represents cutoff runs idss (ground arith) rep) in
            (q, unfold min_of_runs in rw (positive, fits, fewer, more) e, l)
      ]
    ]
  ]
]
  where
    sizes : length runs ≡ length idss
    sizes = length-AllRepresent runs idss rep

    below : (a : ℕ) → count_in a idss ≤ length runs
    below a = omega (arith, count_in-le a idss, sizes)
