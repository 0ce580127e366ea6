-- ===== src/Tests/Snapshots.antt =====
-- libursa/OnDiskFileIndex.cpp, libursa/OnDiskDataset.cpp and libursa/DatabaseSnapshot.cpp on a
-- dataset of one file.
use ursadb.Prelude.{
  ℕ, zero, suc, ◌^◌, ◌<◌, ◌≡◌, ◌⊎◌, refl, inl, inr, true, false, List, [], ◌∷◌, arith, length, All,
  some, none, get_elem?, ok, leb, if◌then◌else◌, Bool-cases,
}
use mathlib.Core.List.{Mem, Permᴰ}
use mathlib.Core.List.Permᴰ
use mathlib.Core.List.Permᴰ.{nil, cons, swap, trans}
use ursadb.Codec.Encoding.{IsByte}
use ursadb.Core.{wide8, raw}
use ursadb.Database.Tasks.{TaskSpec}
use ursadb.Dataset.Answers.{execute_complete}
use ursadb.Dataset.Files.{IsDataset}
use ursadb.Dataset.State.{OnDiskDataset, types_to_query}
use ursadb.Dataset.State as Dataset
use ursadb.FileIndex.Lookup.{IsName, Holds, open_file_index-Holds}
use ursadb.FileIndex.Names.{open_file_index, write_names}
use ursadb.Index.Files.{file_at}
use ursadb.Query.Meaning.{CountsFit, Any}
use ursadb.Query.Occurs.{asks}
use ursadb.Query.Syntax.{Query, literal}
use ursadb.Snapshot.Candidates.{best_compact}
use ursadb.Snapshot.CanMerge.{CanMerge}
use ursadb.Snapshot.Chosen.{best_compact-CanMerge}
use ursadb.Snapshot.Executed.{AnySearchable, AllNamed, execute_finds}
use ursadb.Snapshot.State.{DatabaseSnapshot}
use ursadb.Snapshot.State as Snapshot
use ursadb.Tests.Sample.{
  abc_files, abc_run, abc_index, abc_bytes, abc_holds, abc_runs, abc_ids, abc_fits,
}

-- The file is named "a".
abbrev pub abc_names : List (List ℕ)
abc_names = (97 ∷ []) ∷ []

pub abc_names-IsName : All IsName abc_names
abc_names-IsName = (record { nonempty = refl; one_line = (refl, tt) }, tt)

names_short : length (write_names abc_names) < 2 ^ 64
unfolding write_names
names_short = omega arith

open_file_index-Holds_example : Holds (open_file_index (write_names abc_names) none) abc_names
open_file_index-Holds_example =
    open_file_index-Holds abc_names none abc_names-IsName names_short
      (λ c e. absurd (ground (arith, e))) (omega arith)

abbrev pub abc_dataset : OnDiskDataset
abc_dataset = record {
  name = "set.abc.db";
  id = "abc";
  files_index = open_file_index (write_names abc_names) none;
  indices = abc_index ∷ [];
  taints = [];
}

pub abc_dataset-IsDataset : IsDataset abc_dataset abc_names abc_files
abc_dataset-IsDataset = record {
  named = open_file_index-Holds_example;
  paired = refl;
  few = omega arith;
  indexes = (
    record {
      run = abc_run;
      file = refl;
      fits = abc_fits;
      runs = abc_runs;
      ids = abc_ids;
      holds = abc_holds;
    },
    tt,
  );
}

narrow : types_to_query (abc_index ∷ []) wide8 ≡ false
unfolding types_to_query raw
narrow = refl

abc_files-IsByte : (a : ℕ) → All IsByte (file_at abc_files a)
unfolding file_at
abc_files-IsByte zero = abc_bytes
abc_files-IsByte (suc a) = tt

-- The string "abc".
abbrev abc_query : Query
abc_query = literal ((97 ∷ []) ∷ (98 ∷ []) ∷ (99 ∷ []) ∷ [])

abc_query-CountsFit : CountsFit Any abc_query
unfolding CountsFit
abc_query-CountsFit = tt

execute_complete_example :
    (out : List (List ℕ)) × (Dataset.execute abc_dataset abc_query ≡ ok out)
    × ((a : ℕ) (name : List ℕ)
        → get_elem? abc_names a ≡ some name
        → asks (file_at abc_files a) abc_query ≡ true
        → Mem name out)
execute_complete_example =
    execute_complete abc_dataset abc_names abc_files abc_query abc_dataset-IsDataset narrow
      abc_files-IsByte abc_query-CountsFit

abbrev idle : TaskSpec
idle = record {
  id = 1;
  conn_id = "client";
  request_str = "select";
  epoch_ms = 7;
  work_estimated = 0;
  work_done = 0;
  locks = [];
}

abbrev pub abc_snapshot : DatabaseSnapshot
abc_snapshot = record {
  config = [];
  datasets = abc_dataset ∷ abc_dataset ∷ [];
  tasks = (1, idle) ∷ [];
}

abc_dataset-Searchable : AnySearchable abc_dataset
abc_dataset-Searchable = (
  abc_names,
  abc_files,
  record { is_dataset = abc_dataset-IsDataset; no_wide = narrow; bytes = abc_files-IsByte },
)

execute_finds_example :
    (out : List (List ℕ)) × (task : TaskSpec) × (Snapshot.execute abc_snapshot abc_query [] [] idle
      ≡ ok (out, task))
    × AllNamed abc_snapshot.datasets abc_query [] out
execute_finds_example =
    execute_finds abc_query [] abc_query-CountsFit abc_snapshot idle
      (abc_dataset-Searchable, (abc_dataset-Searchable, tt))

-- Sorting by insertion.
abbrev insert_by : (OnDiskDataset → ℕ) → OnDiskDataset → List OnDiskDataset → List OnDiskDataset
insert_by key ds [] = ds ∷ []
insert_by key ds (first ∷ sorted) =
    let rest = insert_by key ds sorted in
    if leb (key ds) (key first) then ds ∷ first ∷ sorted else first ∷ rest

abbrev insertion_sort : (OnDiskDataset → ℕ) → List OnDiskDataset → List OnDiskDataset
insertion_sort key [] = []
insertion_sort key (ds ∷ datasets) = insert_by key ds (insertion_sort key datasets)

insert_by-Perm :
    (key : OnDiskDataset → ℕ) (ds : OnDiskDataset) (sorted : List OnDiskDataset)
    → Permᴰ (insert_by key ds sorted) (ds ∷ sorted)
insert_by-Perm key ds [] = cons refl nil
insert_by-Perm key ds (first ∷ sorted) = elim (Bool-cases (leb (key ds) (key first))) [
  | inl before ↦ rw before (Permᴰ.refl (ds ∷ first ∷ sorted))
  | inr after ↦ rw after (trans (cons refl (insert_by-Perm key ds sorted)) (swap refl refl))
]

insertion_sort-Perm :
    (key : OnDiskDataset → ℕ) (datasets : List OnDiskDataset)
    → Permᴰ (insertion_sort key datasets) datasets
insertion_sort-Perm key [] = nil
insertion_sort-Perm key (ds ∷ datasets) =
    trans (insert_by-Perm key ds (insertion_sort key datasets))
      (cons refl (insertion_sort-Perm key datasets))

best_compact-CanMerge_example :
    (chosen : List OnDiskDataset) × (best_compact insertion_sort abc_snapshot false ≡ ok chosen)
    × ((chosen ≡ []) ⊎ CanMerge abc_snapshot chosen)
best_compact-CanMerge_example =
    best_compact-CanMerge insertion_sort insertion_sort-Perm abc_snapshot false
