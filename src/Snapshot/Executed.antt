-- ===== src/Snapshot/Executed.antt =====
-- A query over all datasets of a snapshot (libursa/DatabaseSnapshot.cpp) returns the files of each
-- that the query asks for.
use ursadb.Prelude.{
  ℕ, zero, suc, ◌≡◌, refl, sym, ap, ◌∙◌, true, false, List, [], ◌∷◌, ◌++◌, get_elem?, length, All,
  some, ok, Bool-cases, inl, inr, arith,
}
use mathlib.Core.List.{Mem, mem-append_left, mem-append_right}
use mathlib.Core.Path.{subst}
use Prim.Native.String.{String}
use ursadb.Codec.Encoding.{IsByte}
use ursadb.Core.{wide8}
use ursadb.Database.Tasks.{TaskSpec, estimate_work, add_progress}
use ursadb.Dataset.Answers.{execute_complete}
use ursadb.Dataset.Files.{IsDataset}
use ursadb.Dataset.State.{OnDiskDataset, has_all_taints, types_to_query}
use ursadb.Dataset.State as Dataset
use ursadb.Index.Files.{file_at}
use ursadb.Query.Meaning.{CountsFit, Any}
use ursadb.Query.Occurs.{asks}
use ursadb.Query.Syntax.{Query}
use ursadb.Snapshot.State.{DatabaseSnapshot, execute_each, execute, datasets_to_query}

-- A dataset with these files and their names, without wide8.
pub record Searchable (ds : OnDiskDataset) (names files : List (List ℕ)) : Type 0 where
  pub is_dataset : IsDataset ds names files
  pub no_wide : types_to_query ds.indices wide8 ≡ false
  pub bytes : (a : ℕ) → All IsByte (file_at files a)

abbrev pub AnySearchable : OnDiskDataset → Type 0
AnySearchable ds = (names : List (List ℕ)) × (files : List (List ℕ)) × Searchable ds names files

-- The files of a dataset that are asked for are named.
abbrev pub Named : List (List ℕ) → List (List ℕ) → Query → List (List ℕ) → Type 0
Named names files q out =
    (a : ℕ) (name : List ℕ)
    → get_elem? names a ≡ some name
    → asks (file_at files a) q ≡ true
    → Mem name out

result-ok-injective : {A : Type 0} (x y : A) → ok x ≡ ok y → x ≡ y
result-ok-injective x y h = cc

-- Whatever is known of the dataset's files, their names are in what it pushes.
execute-Named :
    (ds : OnDiskDataset) (q : Query) (out names files : List (List ℕ))
    → CountsFit Any q
    → Dataset.execute ds q ≡ ok out
    → Searchable ds names files
    → Named names files q out
execute-Named ds q out names files fits done h a name at asked =
    let (pushed, e, mem) = execute_complete ds names files q h.is_dataset h.no_wide h.bytes fits in
    let same : pushed ≡ out = result-ok-injective pushed out (sym e ∙ done) in
    subst (λ o. Mem name o) same (mem a name at asked)

-- The files of each of the datasets that have the taints.
abbrev pub AllNamed : List OnDiskDataset → Query → List String → List (List ℕ) → Type 0
AllNamed datasets q taints out =
    (i : ℕ) (ds : OnDiskDataset) (names files : List (List ℕ))
    → get_elem? datasets i ≡ some ds
    → has_all_taints ds taints ≡ true
    → Searchable ds names files
    → Named names files q out

some_injective : {A : Type 0} (x y : A) → some x ≡ some y → x ≡ y
some_injective x y h = cc

module _ (q : Query) (taints : List String) (fits : CountsFit Any q) where
  with_first :
      (first : OnDiskDataset) (datasets : List OnDiskDataset) (here rest : List (List ℕ))
      → Dataset.execute first q ≡ ok here
      → AllNamed datasets q taints rest
      → AllNamed (first ∷ datasets) q taints (here ++ rest)
  with_first first datasets here rest ran later zero ds names files at has known a name there
        asked =
      let same : first ≡ ds = some_injective first ds at in
      mem-append_left rest
        (execute-Named ds q here names files fits (rw same at ran) known a name there asked)
  with_first first datasets here rest ran later (suc i) ds names files at has known a name there
        asked =
      mem-append_right here (later i ds names files at has known a name there asked)

  without_first :
      (first : OnDiskDataset) (datasets : List OnDiskDataset) (rest : List (List ℕ))
      → has_all_taints first taints ≡ false
      → AllNamed datasets q taints rest
      → AllNamed (first ∷ datasets) q taints rest
  without_first first datasets rest clean later zero ds names files at has known =
      let same : first ≡ ds = some_injective first ds at in
      let contrary = sym clean ∙ ap (λ d. has_all_taints d taints) same ∙ has in
      absurd (ground (arith, contrary))
  without_first first datasets rest clean later (suc i) ds names files at has known =
      later i ds names files at has known

  execute_each-AllNamed :
      (datasets : List OnDiskDataset) (task : TaskSpec)
      → All AnySearchable datasets
      → (out : List (List ℕ)) × (task' : TaskSpec) × (execute_each datasets q taints task
          ≡ ok (out, task'))
        × AllNamed datasets q taints out
  unfolding execute_each
  execute_each-AllNamed [] task h =
      ([], task, refl, λ i ds names files at tainted known. absurd (ground (arith, at)))
  execute_each-AllNamed (first ∷ datasets) task h =
      let (rest, task', done, later) = execute_each-AllNamed datasets (add_progress 1 task) h.1 in
      elim (Bool-cases (has_all_taints first taints)) [
        | inl tainted ↦
            let (names, files, known) = h.0 in
            let (here, ran, mem) =
              execute_complete first names files q known.is_dataset known.no_wide known.bytes
                fits in
            (
              here ++ rest,
              task',
              rw (tainted, ran, done, execute_each) refl,
              with_first first datasets here rest ran later,
            )
        | inr clean ↦ (
          rest,
          task',
          rw (clean, execute_each) done,
          without_first first datasets rest clean later,
        )
      ]

  -- Where no dataset is selected all are queried, without an exception: the name of every file that
  -- the query asks for, of a dataset that has all the taints, is pushed.
  pub execute_finds :
      (snap : DatabaseSnapshot) (task : TaskSpec)
      → All AnySearchable snap.datasets
      → (out : List (List ℕ)) × (task' : TaskSpec) × (execute snap q taints [] task
          ≡ ok (out, task'))
        × AllNamed snap.datasets q taints out
  unfolding execute datasets_to_query
  execute_finds snap task h =
      execute_each-AllNamed snap.datasets (estimate_work (length snap.datasets) task) h
