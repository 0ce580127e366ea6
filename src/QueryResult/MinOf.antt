-- ===== src/QueryResult/MinOf.antt =====
-- `QueryResult::do_min_of` (libursa/QueryResult.cpp) as an operation on sets of file ids, on each
-- of its branches.
use ursadb.Prelude.{
  ℕ, ◌+◌, ◌-◌, ◌≡◌, refl, Bool, List, [], ◌∷◌, arith, leb, if◌then◌else◌, ok, Bool-cases, inl, inr,
}
use ursadb.SortedRun.Runs.{SortedRun}
use ursadb.SortedRun.Common.{AllRepresent, count_in}
use ursadb.QueryResult.Ops.{QueryResult, is_empty, split_sources, do_min_of_real, do_min_of}
use ursadb.QueryResult.Sets.{Means, all, just, is_empty-Means}
use ursadb.QueryResult.Branches.{ResultOf-ext, min_of_runs-ResultOf}

-- In how many of the sets an id is.
abbrev pub count_true : ℕ → List (ℕ → Bool) → ℕ
count_true a [] = 0
count_true a (m ∷ ms) = (if m a then 1 else 0) + count_true a ms

-- Source by source.
abbrev pub AllMean : List QueryResult → List (ℕ → Bool) → Type 0
AllMean [] [] = Unit
AllMean (q ∷ qs) (m ∷ ms) = Means q m × AllMean qs ms
AllMean _ _ = ⊥

-- Everything lowers the cutoff, and an empty source can be left out.
record Split (cutoff : ℕ) (p : ℕ × List SortedRun) (ms : List (ℕ → Bool)) : Type 0 where
  idss : List (List ℕ)
  runs_of : AllRepresent p.1 idss
  skipped : ℕ
  lowered : p.0 ≡ cutoff - skipped
  counts : (a : ℕ) → count_true a ms ≡ skipped + count_in a idss

Split-cons :
    (cutoff : ℕ) (q : QueryResult) (qs : List QueryResult) (m : ℕ → Bool) (ms : List (ℕ → Bool))
    → Means q m
    → ((c : ℕ) → Split c (split_sources c qs) ms)
    → Split cutoff (split_sources cutoff (q ∷ qs)) (m ∷ ms)
unfolding split_sources
Split-cons cutoff q qs m ms (all e f) rest =
    let s = rest (cutoff - 1) in
    rw e (record {
      idss = s.idss;
      runs_of = s.runs_of;
      skipped = s.skipped + 1;
      lowered = omega (arith, s.lowered);
      counts = λ a. ground (arith, s.counts a, f a);
    })
Split-cons cutoff q qs m ms (just ids e rep f) rest = elim (Bool-cases (is_empty q)) [
  | inl nothing ↦
      let s = rest cutoff in
      rw (nothing, e)
        (record {
          idss = s.idss;
          runs_of = s.runs_of;
          skipped = s.skipped;
          lowered = s.lowered;
          counts = λ a. ground (arith, s.counts a, is_empty-Means (just ids e rep f) nothing a);
        })
  | inr something ↦
      let s = rest cutoff in
      rw (something, e)
        (record {
          idss = ids ∷ s.idss;
          runs_of = (rep, s.runs_of);
          skipped = s.skipped;
          lowered = s.lowered;
          counts = λ a. ground (arith, s.counts a, f a);
        })
]

split_sources-Split :
    (cutoff : ℕ) (qs : List QueryResult) (ms : List (ℕ → Bool))
    → AllMean qs ms
    → Split cutoff (split_sources cutoff qs) ms
split_sources-Split cutoff [] [] l = record {
  idss = [];
  runs_of = unfold split_sources in tt;
  skipped = 0;
  lowered = unfold split_sources in omega arith;
  counts = λ a. refl;
}
split_sources-Split cutoff [] (m ∷ ms) l = elim l [ ]
split_sources-Split cutoff (q ∷ qs) [] l = elim l [ ]
split_sources-Split cutoff (q ∷ qs) (m ∷ ms) l =
    Split-cons cutoff q qs m ms l.0 (λ c. split_sources-Split c qs ms l.1)

-- `do_min_of` never throws, and gives the ids that are in at least `cutoff` of the sources.
pub do_min_of-Means :
    (cutoff : ℕ) (sources : List QueryResult) (ms : List (ℕ → Bool))
    → AllMean sources ms
    → (q : QueryResult) × (do_min_of cutoff sources ≡ ok q)
      × Means q (λ a. leb cutoff (count_true a ms))
unfolding do_min_of do_min_of_real
do_min_of-Means cutoff sources ms l =
    let s = split_sources-Split cutoff sources ms l in
    ResultOf-ext (λ a. ground (arith, s.lowered, s.counts a))
      (min_of_runs-ResultOf (split_sources cutoff sources).0 (split_sources cutoff sources).1 s.idss
        s.runs_of)
