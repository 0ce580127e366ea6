-- ===== src/Database/Datasets.antt =====
-- The datasets of a `Database` (libursa/Database.cpp): `loaded_datasets` owns them, and
-- `working_datasets` and the snapshots hold pointers to them. A pointer is the number of the object
-- that it points to. Log messages are left out.
use ursadb.Prelude.{
  ℕ, suc, Bool, false, ◌||◌, List, [], ◌∷◌, ◌++◌, ◌==◌, if◌then◌else◌, Option, none, some, Result,
  ok, ◌>>=◌,
}
use Prim.Native.String.{String}
use text.Mathlib.Text.{◌==◌ as str_eq}

-- A loaded `OnDiskDataset`: its address, `get_name()` and `get_id()`.
pub record Dataset : Type 0 where
  pub address : ℕ
  pub name : String
  pub id : String

pub record Datasets : Type 0 where
  pub next_address : ℕ
  pub loaded_datasets : List Dataset
  pub working_datasets : List ℕ

-- What `*ptr` is.
unfoldable pub deref : List Dataset → ℕ → Option Dataset
deref [] ptr = none
deref (ds ∷ dss) ptr = if ds.address == ptr then some ds else deref dss ptr

-- The constructor of `OnDiskDataset` reads the file: `read_id` gives the id, or what it throws.
module _ (read_id : String → Result String) where
  unfoldable pub load_dataset : Datasets → String → Result Datasets
  load_dataset db ds = read_id ds >>= λ id. ok (record {
    next_address = suc db.next_address;
    loaded_datasets =
        db.loaded_datasets ++ (record { address = db.next_address; name = ds; id = id } ∷ []);
    working_datasets = db.working_datasets ++ (db.next_address ∷ []);
  })

-- `get_name() == dsname || get_id() == dsname`
unfoldable pub is_named : Dataset → String → Bool
is_named ds dsname = str_eq ds.name dsname || str_eq ds.id dsname

abbrev pub named_at : Option Dataset → String → Bool
named_at none dsname = false
named_at (some ds) dsname = is_named ds dsname

unfoldable pub drop_working : List Dataset → List ℕ → String → List ℕ
unfolding deref
drop_working loaded [] dsname = []
drop_working loaded (ptr ∷ working) dsname =
    let rest = drop_working loaded working dsname in
    if named_at (deref loaded ptr) dsname then rest else ptr ∷ rest

unfoldable pub drop_dataset : Datasets → String → Datasets
unfolding drop_working
drop_dataset db dsname = record db {
  working_datasets = drop_working db.loaded_datasets db.working_datasets dsname;
}

-- `drop()` of the dataset, which removes its files, is left out.
unfoldable pub destroy_loaded : List Dataset → String → List Dataset
destroy_loaded [] dsname = []
destroy_loaded (ds ∷ dss) dsname =
    let rest = destroy_loaded dss dsname in if is_named ds dsname then rest else ds ∷ rest

unfoldable pub destroy_dataset : Datasets → String → Datasets
unfolding destroy_loaded
destroy_dataset db dsname = record db { loaded_datasets = destroy_loaded db.loaded_datasets dsname }

-- `required_datasets`: the names behind the pointers of the working sets and of the snapshots.
unfoldable pub names_of : List Dataset → List ℕ → List String
unfolding deref
names_of loaded [] = []
names_of loaded (ptr ∷ ptrs) = elim (deref loaded ptr) [
  | none ↦ names_of loaded ptrs
  | some ds ↦ ds.name ∷ names_of loaded ptrs
]

unfoldable pub contains_name : List String → String → Bool
contains_name [] n = false
contains_name (m ∷ ms) n = str_eq m n || contains_name ms n

unfoldable pub drop_list : List String → List Dataset → List String
unfolding contains_name
drop_list required [] = []
drop_list required (set ∷ sets) =
    let rest = drop_list required sets in
    if contains_name required set.name then rest else set.name ∷ rest

unfoldable pub destroy_all : List Dataset → List String → List Dataset
unfolding destroy_loaded
destroy_all loaded [] = loaded
destroy_all loaded (ds ∷ dss) = destroy_all (destroy_loaded loaded ds) dss

-- `collect_garbage`, less the stale iterators; `snapshots` are the pointers that snapshots hold.
unfoldable pub collect_garbage : Datasets → List ℕ → Datasets
unfolding names_of drop_list destroy_all
collect_garbage db snapshots =
    let required = names_of db.loaded_datasets (db.working_datasets ++ snapshots) in
    record db {
      loaded_datasets = destroy_all db.loaded_datasets (drop_list required db.loaded_datasets);
    }
