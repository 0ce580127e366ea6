-- ===== src/Snapshot/Compatible.antt =====
-- `OnDiskDataset::get_compatible_datasets` (libursa/OnDiskDataset.cpp). A `std::set` of strings is
-- the sorted list of its elements, and a `std::map` the list of its pairs, sorted by the keys.
use ursadb.Prelude.{List, [], ◌∷◌, ◌++◌}
use Prim.Native.Nat.{Ordering}
use Prim.Native.String.{String, compare}
use Prim.Native.String.{◌++◌ as ◌append◌}
use ursadb.Core.{get_index_type_name}
use ursadb.Index.File.{OnDiskIndex}
use ursadb.Dataset.State.{OnDiskDataset}

-- `set.insert(value)`
unfoldable pub set_insert : String → List String → List String
set_insert value [] = value ∷ []
set_insert value (first ∷ set) = elim (compare value first) [
  | Ordering.lt ↦ value ∷ first ∷ set
  | Ordering.eq ↦ first ∷ set
  | Ordering.gt ↦ first ∷ set_insert value set
]

unfoldable pub insert_taints : List String → List String → List String
unfolding set_insert
insert_taints [] ds_class = ds_class
insert_taints (taint ∷ taints) ds_class =
    insert_taints taints (set_insert ("taint:" append taint) ds_class)

unfoldable pub insert_types : List OnDiskIndex → List String → List String
unfolding set_insert
insert_types [] ds_class = ds_class
insert_types (index ∷ indices) ds_class =
    insert_types indices (set_insert ("type:" append get_index_type_name index.ntype) ds_class)

unfoldable pub class_of : OnDiskDataset → List String
unfolding insert_taints insert_types
class_of ds = insert_types ds.indices (insert_taints ds.taints [])

-- The order of the keys.
unfoldable pub compare_sets : List String → List String → Ordering
compare_sets [] [] = Ordering.eq
compare_sets [] (t ∷ ts) = Ordering.lt
compare_sets (s ∷ ss) [] = Ordering.gt
compare_sets (s ∷ ss) (t ∷ ts) = elim (compare s t) [
  | Ordering.lt ↦ Ordering.lt
  | Ordering.eq ↦ compare_sets ss ts
  | Ordering.gt ↦ Ordering.gt
]

abbrev pub Partial : Type 0
Partial = List (List String × List OnDiskDataset)

-- `partial[ds_class].push_back(ds)`
unfoldable pub push_partial : List String → OnDiskDataset → Partial → Partial
unfolding compare_sets
push_partial ds_class ds [] = (ds_class, ds ∷ []) ∷ []
push_partial ds_class ds ((key, set) ∷ partial) = elim (compare_sets ds_class key) [
  | Ordering.lt ↦ (ds_class, ds ∷ []) ∷ (key, set) ∷ partial
  | Ordering.eq ↦ (key, set ++ ds ∷ []) ∷ partial
  | Ordering.gt ↦ (key, set) ∷ push_partial ds_class ds partial
]

unfoldable pub partial_loop : List OnDiskDataset → Partial → Partial
unfolding push_partial class_of
partial_loop [] partial = partial
partial_loop (ds ∷ datasets) partial = partial_loop datasets (push_partial (class_of ds) ds partial)

unfoldable pub values_of : Partial → List (List OnDiskDataset)
values_of [] = []
values_of ((key, set) ∷ partial) = set ∷ values_of partial

unfoldable pub get_compatible_datasets : List OnDiskDataset → List (List OnDiskDataset)
unfolding partial_loop values_of
get_compatible_datasets datasets = values_of (partial_loop datasets [])
