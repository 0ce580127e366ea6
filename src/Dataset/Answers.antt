-- ===== src/Dataset/Answers.antt =====
-- `OnDiskDataset::execute` (libursa/OnDiskDataset.cpp) returns the name of every file that the query
-- asks for.
use ursadb.Prelude.{
  ℕ, zero, suc, ◌+◌, ◌-◌, ◌^◌, ◌≤◌, ◌<◌, ◌≡◌, refl, sym, ap, ◌∙◌, Bool, true, false, ◌||◌, inl, inr,
  List, [], ◌∷◌, ◌++◌, arith, length, get_elem?, All, elem, some, ok, ◌==◌, Bool-cases,
}
use mathlib.Core.List.{Mem, mem-cons_self, mem-cons_of_mem}
use ursadb.Codec.Encoding.{IsByte}
use ursadb.Core.{wide8}
use ursadb.FileIndex.Names.{OnDiskFileIndex, get_file_name}
use ursadb.FileIndex.Lookup.{Holds}
use ursadb.Index.Files.{file_at, file_at-behind}
use ursadb.Index.MergeHolds.{elem-bound}
use ursadb.Optimizer.Optimize.{q_optimize}
use ursadb.Query.Meaning.{CountsFit, Any}
use ursadb.Query.Occurs.{asks}
use ursadb.Query.Plan.{plan}
use ursadb.Query.Run.{run}
use ursadb.Query.Syntax.{Query}
use ursadb.QueryResult.Ops.{QueryResult}
use ursadb.QueryResult.Sets.{Means, all, just}
use ursadb.SortedRun.Represents.{decompressed-Represents}
use ursadb.Search.{search_complete}
use ursadb.Dataset.State.{
  OnDiskDataset, query_primitive, query_dataset, types_to_query, push_names, push_result, execute,
}
use ursadb.Dataset.Files.{IsDataset, query_primitive-answers}

module _ {A : Type 0} where
  Mem-get_elem? : (xs : List A) (i : ℕ) (x : A) → get_elem? xs i ≡ some x → Mem x xs
  Mem-get_elem? [] i x h = absurd (ground (arith, h))
  Mem-get_elem? (y ∷ xs) zero x h = let e : y ≡ x = cc in rw e mem-cons_self
  Mem-get_elem? (y ∷ xs) (suc i) x h = mem-cons_of_mem y (Mem-get_elem? xs i x h)

  parts_at :
      (xs : List A) (i : ℕ)
      → i < length xs
      → (before : List A) × (x : A) × (after : List A) × (xs ≡ before ++ x ∷ after)
        × (length before ≡ i)
        × (get_elem? xs i ≡ some x)
  parts_at [] i h = absurd (omega arith)
  parts_at (y ∷ xs) zero h = ([], y, xs, refl, refl, refl)
  parts_at (y ∷ xs) (suc i) h =
      let (before, x, after, e, f, g) = parts_at xs i (omega arith) in
      (y ∷ before, x, after, ap (λ more. y ∷ more) e, ap suc f, g)

  some-injective : (x y : A) → some x ≡ some y → x ≡ y
  some-injective x y h = cc

all_below : (n : ℕ) (ids : List ℕ) → ((a : ℕ) → n ≤ a → elem a ids ≡ false) → All (λ a. a < n) ids
all_below n [] h = tt
all_below n (x ∷ ids) h = (ground (arith, h x), all_below n ids (λ a le. ground (arith, h a le)))

file_at-end : (files : List (List ℕ)) (a : ℕ) → length files ≤ a → file_at files a ≡ []
file_at-end files a h =
    let e : length files + (a - length files) ≡ a = omega arith in
    rw e at (file_at-behind files (a - length files))

module _ (index : OnDiskFileIndex) (names : List (List ℕ)) (named : Holds index names) where
  -- The names of these ids are pushed.
  push_names-Mem :
      (fids : List ℕ)
      → All (λ a. a < length names) fids
      → (out : List (List ℕ)) × (push_names index fids ≡ ok out)
        × ((a : ℕ) (name : List ℕ)
            → elem a fids ≡ true
            → get_elem? names a ≡ some name
            → Mem name out)
  unfolding push_names
  push_names-Mem [] h = ([], refl, λ a name there at. absurd (ground (arith, there)))
  push_names-Mem (fid ∷ fids) h =
      let (before, filename, after, e, position, found) = parts_at names fid h.0 in
      let (out, pushed, mem) = push_names-Mem fids h.1 in
      let read : get_file_name index fid ≡ ok filename =
        rw position at (named.by_id before after filename e) in
      (
        filename ∷ out,
        rw (read, pushed) refl,
        λ a name there at. elim (Bool-cases (a == fid)) [
          | inl here ↦
              let same : a ≡ fid = ground arith in
              let it : filename ≡ name = some-injective filename name (sym found ∙ rw same at at) in
              rw it mem-cons_self
          | inr later ↦ mem-cons_of_mem filename (mem a name (ground (arith, there)) at)
        ],
      )

  push_result-Mem :
      (r : QueryResult) (member : ℕ → Bool)
      → Means r member
      → length names < 2 ^ 32
      → ((a b : ℕ) → length names ≤ a → length names ≤ b → member a ≡ member b)
      → (out : List (List ℕ)) × (push_result index r ≡ ok out)
        × ((a : ℕ) (name : List ℕ) → member a ≡ true → get_elem? names a ≡ some name → Mem name out)
  unfolding push_result
  push_result-Mem r member (all e f) few tail =
      (names, rw (e, named.all_names) refl, λ a name there at. Mem-get_elem? names a name at)
  push_result-Mem r member (just ids e rep f) few tail =
      let none_big = elem-bound (2 ^ 32) (2 ^ 32) ids rep.fits (omega arith) in
      let outside : (a : ℕ) → length names ≤ a → elem a ids ≡ false =
        λ a le. f a ∙ tail a (2 ^ 32) le (omega (arith, few)) ∙ sym (f (2 ^ 32)) ∙ none_big in
      let (out, pushed, mem) = push_names-Mem ids (all_below (length names) ids outside) in
      let same = decompressed-Represents rep in
      (out, rw (e, same) pushed, λ a name there at. mem a name (f a ∙ there) at)

execute-steps :
    (ds : OnDiskDataset) (q o : Query) (r : QueryResult) (out : List (List ℕ))
    → q_optimize (plan (types_to_query ds.indices) q) ≡ ok o
    → run (query_primitive ds.indices) o ≡ ok r
    → push_result ds.files_index r ≡ ok out
    → execute ds q ≡ ok out
unfolding execute query_dataset
execute-steps ds q o r out optimized ran pushed = rw (optimized, ran, pushed) refl

implied_true : (a b : Bool) → (a || b) ≡ b → a ≡ true → b ≡ true
implied_true a b h k = ground arith

-- Over a dataset of some files whose bytes are below 256, and which has no index of the type wide8,
-- a query whose counts fit into an `int` ends without an exception, and the name of every file that
-- the query asks for is pushed.
pub execute_complete :
    (ds : OnDiskDataset) (names files : List (List ℕ)) (q : Query)
    → IsDataset ds names files
    → types_to_query ds.indices wide8 ≡ false
    → ((a : ℕ) → All IsByte (file_at files a))
    → CountsFit Any q
    → (out : List (List ℕ)) × (execute ds q ≡ ok out)
      × ((a : ℕ) (name : List ℕ)
          → get_elem? names a ≡ some name
          → asks (file_at files a) q ≡ true
          → Mem name out)
execute_complete ds names files q h no_wide bytes fits =
    let (o, r, member, optimized, ran, means, found, same) =
      search_complete (types_to_query ds.indices) (query_primitive ds.indices) (file_at files) q
        no_wide bytes (λ g. query_primitive-answers files h.few ds.indices g h.indexes) fits in
    let end : (a : ℕ) → length names ≤ a → file_at files a ≡ [] =
      λ a le. file_at-end files a (omega (arith, h.paired)) in
    let (out, pushed, mem) =
      push_result-Mem ds.files_index names h.named r member means (omega (arith, h.paired, h.few))
        (λ a b la lb. same a b (end a la ∙ sym (end b lb))) in
    (
      out,
      execute-steps ds q o r out optimized ran pushed,
      λ a name at asked. mem a name (implied_true _ _ (found a) asked) at,
    )
