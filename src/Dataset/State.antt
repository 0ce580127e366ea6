-- ===== src/Dataset/State.antt =====
-- The class `OnDiskDataset` (libursa/OnDiskDataset.cpp): its queries, its taints, and which datasets
-- can be merged. A `std::set` of strings is a list in which the order does not matter. Counters, log
-- messages, prefetching, and the JSON file of the dataset are left out.
use ursadb.Prelude.{
  ℕ, Bool, true, false, ◌&&◌, ◌||◌, List, [], ◌∷◌, ◌++◌, ◌==◌, if◌then◌else◌, Result, ok, err,
  ◌>>=◌, unexpected_ngram_type, no_such_index,
}
use Prim.Native.String.{String}
use text.Mathlib.Text.{◌==◌ as str_eq}
use ursadb.Core.{IndexType, gram3, text4, hash4, wide8, raw}
use ursadb.Database.Datasets.{contains_name}
use ursadb.FileIndex.Names.{OnDiskFileIndex, for_each_filename, get_file_name}
use ursadb.Index.File.{OnDiskIndex, query}
use ursadb.Optimizer.Optimize.{q_optimize}
use ursadb.Query.Plan.{plan}
use ursadb.Query.Run.{run}
use ursadb.Query.Syntax.{PrimitiveQuery, Query}
use ursadb.QueryResult.Ops.{QueryResult}
use ursadb.SortedRun.Runs.{decompressed}

pub record OnDiskDataset : Type 0 where
  pub name : String
  pub id : String  -- get_id()
  pub files_index : OnDiskFileIndex
  pub indices : List OnDiskIndex
  pub taints : List String

-- `ndx.index_type() == type`
abbrev pub has_type : OnDiskIndex → IndexType → Bool
has_type ndx type = raw ndx.ntype == raw type

unfoldable pub query_primitive : List OnDiskIndex → PrimitiveQuery → Result QueryResult
query_primitive [] primitive = err unexpected_ngram_type
query_primitive (ndx ∷ indices) primitive = elim (has_type ndx primitive.itype) [
  | true ↦ query ndx.ndxfile primitive.trigram
  | false ↦ query_primitive indices primitive
]

unfoldable pub query_dataset : OnDiskDataset → Query → Result QueryResult
unfolding query_primitive
query_dataset ds query = run (query_primitive ds.indices) query

-- `types_to_query`, as a test.
unfoldable pub types_to_query : List OnDiskIndex → IndexType → Bool
types_to_query [] type = false
types_to_query (ndx ∷ indices) type = has_type ndx type || types_to_query indices type

-- `for (fid : decompressed()) out->push_back(get_file_name(fid))`
unfoldable pub push_names : OnDiskFileIndex → List ℕ → Result (List (List ℕ))
push_names files_index [] = ok []
push_names files_index (fid ∷ fids) = do
  filename ← get_file_name files_index fid
  rest ← push_names files_index fids
  ok (filename ∷ rest)

unfoldable pub push_result : OnDiskFileIndex → QueryResult → Result (List (List ℕ))
unfolding push_names
push_result files_index result =
    if result.has_everything
    then ok (for_each_filename files_index)
    else push_names files_index (decompressed result.results)

-- What is pushed to `out`.
unfoldable pub execute : OnDiskDataset → Query → Result (List (List ℕ))
unfolding types_to_query query_dataset push_result
execute ds query = q_optimize (plan (types_to_query ds.indices) query) >>= λ plan.
    query_dataset ds plan >>= λ result. push_result ds.files_index result

-- `taints.erase(taint)`
unfoldable pub erase_taint : List String → String → List String
erase_taint [] taint = []
erase_taint (t ∷ taints) taint =
    let rest = erase_taint taints taint in if str_eq t taint then rest else t ∷ rest

unfoldable pub toggle_taint : OnDiskDataset → String → OnDiskDataset
unfolding erase_taint
toggle_taint ds taint = record ds {
  taints =
      if contains_name ds.taints taint
      then erase_taint ds.taints taint
      else ds.taints ++ taint ∷ [];
}

unfoldable pub contains_all : List String → List String → Bool
contains_all all [] = true
contains_all all (taint ∷ taints) =
    if contains_name all taint then contains_all all taints else false

unfoldable pub has_all_taints : OnDiskDataset → List String → Bool
unfolding contains_all
has_all_taints ds taints = contains_all ds.taints taints

-- `taints == other.taints`
unfoldable pub is_taint_compatible : OnDiskDataset → OnDiskDataset → Bool
unfolding contains_all
is_taint_compatible ds other =
    contains_all ds.taints other.taints && contains_all other.taints ds.taints

unfoldable pub get_index_with_type : List OnDiskIndex → IndexType → Result OnDiskIndex
get_index_with_type [] type = err no_such_index
get_index_with_type (index ∷ indices) type = elim (has_type index type) [
  | true ↦ ok index
  | false ↦ get_index_with_type indices type
]

-- `std::set<IndexType>` in its order: the types among these that there is an index of.
unfoldable pub types_among : List OnDiskIndex → List IndexType → List IndexType
unfolding types_to_query
types_among indices [] = []
types_among indices (type ∷ types) =
    let rest = types_among indices types in
    if types_to_query indices type then type ∷ rest else rest

abbrev pub all_types : List IndexType
all_types = gram3 ∷ text4 ∷ hash4 ∷ wide8 ∷ []

unfoldable pub index_types : OnDiskDataset → List IndexType
unfolding types_among
index_types ds = types_among ds.indices all_types

-- `==` of two such sets.
unfoldable pub same_types : List IndexType → List IndexType → Bool
same_types [] [] = true
same_types (t ∷ ts) (u ∷ us) = (raw t == raw u) && same_types ts us
same_types _ _ = false
