-- ===== src/QueryResult/Ops.antt =====
-- The class `QueryResult` of libursa/QueryResult.cpp. The counters, which only measure, are left
-- out. A method that changes the object returns it.
use ursadb.Prelude.{
  ℕ, ◌-◌, Bool, true, false, not, ◌&&◌, ◌||◌, List, [], ◌∷◌, ltb, leb, ◌==◌, if◌then◌else◌, length,
  Result, ok, err, ◌>>=◌, out_of_bounds,
}
use ursadb.SortedRun.Runs
use ursadb.SortedRun.Runs.{SortedRun, no_files}
use ursadb.SortedRun.Pick.{pick_common}

pub record QueryResult : Type 0 where
  pub results : SortedRun
  pub has_everything : Bool

abbrev pub of_results : SortedRun → QueryResult
of_results r = record { results = r; has_everything = false }

abbrev pub empty : QueryResult
empty = of_results no_files

abbrev pub everything : QueryResult
everything = record { results = no_files; has_everything = true }

unfoldable pub is_empty : QueryResult → Bool
is_empty q = not q.has_everything && Runs.empty q.results

unfoldable pub do_or : QueryResult → QueryResult → Result QueryResult
do_or self other =
    if self.has_everything || other.has_everything
    then ok everything
    else Runs.do_or self.results other.results >>= λ r. ok (record self { results = r })

unfoldable pub do_and : QueryResult → QueryResult → Result QueryResult
do_and self other =
    if other.has_everything
    then ok self
    else if self.has_everything
    then ok other
    else Runs.do_and self.results other.results >>= λ r. ok (record self { results = r })

-- The first loop of `do_min_of_real`: the cutoff that is left, and the sources that are neither
-- everything nor empty. A cutoff that falls below 0 is 0 here: only `cutoff <= 0` is asked of it.
unfoldable pub split_sources : ℕ → List QueryResult → ℕ × List SortedRun
split_sources cutoff [] = (cutoff, [])
split_sources cutoff (source ∷ sources) =
    let (left, runs) =
      split_sources (if source.has_everything then cutoff - 1 else cutoff) sources in
    (left, (if source.has_everything || is_empty source then runs else source.results ∷ runs))

-- `out.results.do_and(*nontrivial_sources[i])` from `i = 1` on, and the same with `do_or`.
unfoldable pub fold_and : SortedRun → List SortedRun → Result SortedRun
fold_and out [] = ok out
fold_and out (r ∷ rs) = Runs.do_and out r >>= λ out'. fold_and out' rs

unfoldable pub fold_or : SortedRun → List SortedRun → Result SortedRun
fold_or out [] = ok out
fold_or out (r ∷ rs) = Runs.do_or out r >>= λ out'. fold_or out' rs

-- `nontrivial_sources[0]` is out of bounds in an empty vector.
unfoldable pub fold_runs :
    (SortedRun → List SortedRun → Result SortedRun) → List SortedRun → Result QueryResult
fold_runs fold [] = err out_of_bounds
fold_runs fold (r ∷ rs) = fold r rs >>= λ out. ok (of_results out)

unfoldable pub min_of_runs : ℕ → List SortedRun → Result QueryResult
unfolding fold_runs
min_of_runs cutoff runs =
    if leb cutoff 0
    then ok everything
    else if ltb (length runs) cutoff
    then ok empty
    else if cutoff == length runs
    then fold_runs fold_and runs
    else if cutoff == 1
    then fold_runs fold_or runs
    else pick_common cutoff runs >>= λ r. ok (of_results r)

unfoldable pub do_min_of_real : ℕ → List QueryResult → Result QueryResult
unfolding split_sources min_of_runs
do_min_of_real cutoff sources =
    let (left, runs) = split_sources cutoff sources in min_of_runs left runs

unfoldable pub do_min_of : ℕ → List QueryResult → Result QueryResult
unfolding do_min_of_real
do_min_of cutoff sources = do_min_of_real cutoff sources
