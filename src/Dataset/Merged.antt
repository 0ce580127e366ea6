-- ===== src/Dataset/Merged.antt =====
-- `OnDiskDataset::merge` (libursa/OnDiskDataset.cpp) writes the dataset of all files of the merged
-- datasets.
use ursadb.Prelude.{
  ℕ, ◌+◌, ◌^◌, ◌<◌, ◌≡◌, refl, sym, ap, ◌∙◌, Bool, true, List, [], ◌∷◌, ◌++◌, arith, length,
  length-append, ◌==◌, All, elem, ok, none, Bool-cases, inl, inr,
}
use mathlib.Core.Path.{subst}
use Prim.Native.String.{String}
use ursadb.Core.{IndexType, raw, num_trigrams}
use ursadb.FileIndex.Lookup.{IsName, open_file_index-Holds}
use ursadb.FileIndex.Pop.{write_names-append}
use ursadb.FileIndex.Names.{write_names, open_file_index}
use ursadb.Index.Batch.{IndexMergeHelper}
use ursadb.Index.Built.{open_index-layout}
use ursadb.Index.Bytes.{as_index_file}
use ursadb.Index.File.{OnDiskIndex}
use ursadb.Index.Layout.{layout, start_of}
use ursadb.Index.Files.{file_at, gram}
use ursadb.Index.MergeAnswers.{on_disk_merge-layout}
use ursadb.Index.MergeHolds.{all_files, merged-IsRunFrom, merged-HoldsFiles}
use ursadb.Index.MergeLoop.{BatchesFit}
use ursadb.Index.Merged.{Source, helpers, IsSource, merged, file_total, bound-IsU32}
use ursadb.Query.Occurs.{indexed}
use ursadb.Dataset.Files.{IndexOf, IsDataset, type_of_test}
use ursadb.Dataset.Merge.{
  MergedFiles, helpers_of, taints_compatible, types_compatible, write_all_names, merge_types, merge,
  open_indexes, open_merged,
}
use ursadb.Dataset.Parts.{
  Part, datasets_of, part_names, part_files, IsPart, HasIndex, helpers_of-IsSource,
  file_total-files, start_of-fits,
}
use ursadb.Dataset.Types.{types_of, index_types-types_of, same_self}
use ursadb.Dataset.State.{
  OnDiskDataset, types_to_query, types_among, all_types, index_types, same_types,
}

-- The types of the indexes of a dataset, and of those with the same ones.
types_among-present :
    (indices : List OnDiskIndex) (types : List IndexType)
    → All (λ type. types_to_query indices type ≡ true) (types_among indices types)
unfolding types_among
types_among-present indices [] = tt
types_among-present indices (type ∷ types) = elim (Bool-cases (types_to_query indices type)) [
  | inl there ↦ rw there (there, types_among-present indices types)
  | inr away ↦ rw away (types_among-present indices types)
]

same_types-eq : (ts us : List IndexType) → same_types ts us ≡ true → ts ≡ us
unfolding same_types
same_types-eq [] [] h = refl
same_types-eq [] (u ∷ us) h = absurd (ground (arith, h))
same_types-eq (t ∷ ts) [] h = absurd (ground (arith, h))
same_types-eq (t ∷ ts) (u ∷ us) h =
    let first : (raw t == raw u) ≡ true = ground (arith, h) in
    let rest : same_types ts us ≡ true = ground (arith, h) in
    ap (λ x. x ∷ ts) (type_of_test t u first) ∙ ap (λ xs. u ∷ xs) (same_types-eq ts us rest)

-- Every dataset has an index of every type.
types_compatible-HasIndex :
    (types : List IndexType) (parts : List Part)
    → types_compatible types (datasets_of parts) ≡ true
    → All (λ p. All (λ type. HasIndex type p) types) parts
unfolding types_compatible index_types
types_compatible-HasIndex types [] h = tt
types_compatible-HasIndex types (p ∷ parts) h =
    let first : same_types (types_among p.ds.indices all_types) types ≡ true = ground (arith, h) in
    let rest : types_compatible types (datasets_of parts) ≡ true = ground (arith, h) in
    (
      subst (λ ts. All (λ type. HasIndex type p) ts)
          (same_types-eq (types_among p.ds.indices all_types) types first)
          (types_among-present p.ds.indices all_types),
      types_compatible-HasIndex types parts rest,
    )

heads :
    (type : IndexType) (types : List IndexType) (parts : List Part)
    → All (λ p. All (λ ty. HasIndex ty p) (type ∷ types)) parts
    → All (HasIndex type) parts × All (λ p. All (λ ty. HasIndex ty p) types) parts
heads type types [] h = (tt, tt)
heads type types (p ∷ parts) h =
    let (here, later) = heads type types parts h.1 in ((h.0.0, here), (h.0.1, later))

write_all_names-part_names :
    (parts : List Part)
    → All IsPart parts
    → write_all_names (datasets_of parts) ≡ write_names (part_names parts)
unfolding write_all_names
write_all_names-part_names [] h = unfold write_names in refl
write_all_names-part_names (p ∷ parts) h =
    ap (λ names. write_names names ++ write_all_names (datasets_of parts)) h.0.named.all_names
    ∙ ap (λ more. write_names p.names ++ more) (write_all_names-part_names parts h.1)
    ∙ sym (write_names-append p.names (part_names parts))

part_names-length :
    (parts : List Part) → All IsPart parts → length (part_names parts) ≡ length (part_files parts)
part_names-length [] h = refl
part_names-length (p ∷ parts) h = omega (
  arith,
  h.0.paired,
  part_names-length parts h.1,
  length-append p.names (part_names parts),
  length-append p.files (part_files parts),
)

zero_plus : (n : ℕ) → 0 + n ≡ n
zero_plus n = omega arith

module _ (type : IndexType) (sources : List Source) (files : List (List ℕ))
    (h : All (IsSource type) sources) (e : all_files sources ≡ files)
    (few : length files < 2 ^ 32) where
  merged_ids : (t : ℕ) → All (λ a. a < length files) (merged 0 sources t)
  merged_ids t =
      subst (λ n. All (λ a. a < n) (merged 0 sources t))
        (zero_plus (file_total sources) ∙ file_total-files type sources h ∙ ap length e)
        (merged-IsRunFrom type sources 0 t h).1

  merged_fits : start_of (merged 0 sources) num_trigrams < 2 ^ 64
  merged_fits =
      start_of-fits (merged 0 sources) (length files) few
        (λ t. (merged-IsRunFrom type sources 0 t h).0) merged_ids
        (λ t. bound-IsU32 (length files) (merged 0 sources t) (omega (arith, few)) (merged_ids t))

  -- The merged runs as an index of all files.
  merged-IndexOf : IndexOf files (record {
    ndxfile = as_index_file (layout type (merged 0 sources) num_trigrams);
    ntype = type;
  })
  merged-IndexOf = record {
    run = merged 0 sources;
    file = refl;
    fits = merged_fits;
    runs = λ t. (merged-IsRunFrom type sources 0 t h).0;
    ids = merged_ids;
    holds = λ t a below.
        ap (λ n. elem n (merged 0 sources t)) (sym (zero_plus a))
        ∙ merged-HoldsFiles type sources 0 t a h below
        ∙ ap (λ fs. indexed (file_at fs a) (gram type t)) e;
  }

module _ (accepts : List ℕ → List ℕ → Bool) (accepts_all : (f b : List ℕ) → accepts f b ≡ true)
    (parts : List Part) (are_datasets : All IsPart parts) (few : length (part_files parts) < 2 ^ 32)
    (batches : (type : IndexType) (indexes : List IndexMergeHelper)
      → helpers_of (datasets_of parts) type ≡ ok indexes
      → BatchesFit indexes) where
  merge_types-IndexOf :
      (types : List IndexType)
      → All (λ p. All (λ type. HasIndex type p) types) parts
      → (files : List (List ℕ)) × (indices : List OnDiskIndex) × (merge_types accepts
            (datasets_of parts)
            types
          ≡ ok files)
        × (open_indexes files ≡ ok indices)
        × (types_of indices ≡ types)
        × All (IndexOf (part_files parts)) indices
  unfolding merge_types open_indexes
  merge_types-IndexOf [] h = ([], [], refl, refl, refl, tt)
  merge_types-IndexOf (type ∷ types) h =
      let (here, later) = heads type types parts h in
      let (sources, found, are_sources, same) = helpers_of-IsSource type parts are_datasets here in
      let total : file_total sources < 2 ^ 32 =
        omega (arith, file_total-files type sources are_sources, ap length same, few) in
      let fits = merged_fits type sources (part_files parts) are_sources same few in
      let of = merged-IndexOf type sources (part_files parts) are_sources same few in
      let written =
        on_disk_merge-layout accepts accepts_all type sources are_sources total
          (batches type (helpers sources) found) fits in
      let opened = open_index-layout type (merged 0 sources) fits in
      let (files, indices, done, reads, kinds, all_of) = merge_types-IndexOf types later in
      (
        layout type (merged 0 sources) num_trigrams ∷ files,
        record {
          ndxfile = as_index_file (layout type (merged 0 sources) num_trigrams);
          ntype = type;
        }
            ∷ indices,
        rw (found, written, done) refl,
        rw (opened, reads) refl,
        ap (λ ts. type ∷ ts) kinds,
        (of, all_of),
      )

  all_present :
      (first second : Part) (others : List Part)
      → parts ≡ first ∷ second ∷ others
      → types_compatible (index_types first.ds) (second.ds ∷ datasets_of others) ≡ true
      → All (λ p. All (λ type. HasIndex type p) (index_types first.ds)) parts
  all_present first second others e types =
      let compatible : types_compatible (index_types first.ds)
            (datasets_of (first ∷ second ∷ others))
          ≡ true =
        unfold types_compatible in ground (arith, same_self (index_types first.ds), types) in
      subst (λ ps. All (λ p. All (λ type. HasIndex type p) (index_types first.ds)) ps) (sym e)
        (types_compatible-HasIndex (index_types first.ds) (first ∷ second ∷ others) compatible)

  merge-steps :
      (first second : Part) (others : List Part)
      → parts ≡ first ∷ second ∷ others
      → taints_compatible first.ds (second.ds ∷ datasets_of others) ≡ true
      → types_compatible (index_types first.ds) (second.ds ∷ datasets_of others) ≡ true
      → (files : List (List ℕ))
      → merge_types accepts (datasets_of parts) (index_types first.ds) ≡ ok files
      → merge accepts (datasets_of parts)
        ≡ ok (record {
          indexes = files;
          fname_list = write_all_names (datasets_of parts);
          merged_taints = first.ds.taints;
        })
  merge-steps first second others e taints types files done =
      let split : datasets_of parts ≡ first.ds ∷ second.ds ∷ datasets_of others =
        ap datasets_of e in
      let merged = rw split at done in rw split (unfold merge in rw (taints, types, merged) refl)

  -- Where the system call takes every buffer, a merge of two datasets or more, whose taints and whose
  -- types of indexes are the same, ends without an exception, if all batches fit into their vectors;
  -- what it writes is opened as the dataset of all their files, fewer than 2 ^ 32, under their names
  -- in the same order, with indexes of the same types as the first one and with its taints. (The names are not empty, have no newline, and their list has fewer than
  -- 2 ^ 64 bytes.)
  pub merge-IsDataset :
      (name id : String) (first second : Part) (others : List Part)
      → parts ≡ first ∷ second ∷ others
      → taints_compatible first.ds (second.ds ∷ datasets_of others) ≡ true
      → types_compatible (index_types first.ds) (second.ds ∷ datasets_of others) ≡ true
      → All IsName (part_names parts)
      → length (write_names (part_names parts)) < 2 ^ 64
      → (files : MergedFiles) × (ds : OnDiskDataset) × (merge accepts (datasets_of parts)
          ≡ ok files)
        × (open_merged name id files ≡ ok ds)
        × IsDataset ds (part_names parts) (part_files parts)
        × (index_types ds ≡ index_types first.ds)
        × (ds.taints ≡ first.ds.taints)
  unfolding open_merged
  merge-IsDataset name id first second others e taints types valid fits =
      let present = all_present first second others e types in
      let (files, indices, done, reads, kinds, of) =
        merge_types-IndexOf (index_types first.ds) present in
      let names = write_all_names-part_names parts are_datasets in
      let paired = part_names-length parts are_datasets in
      let named =
        open_file_index-Holds (part_names parts) none valid fits
          (λ c none_is. absurd (ground (arith, none_is))) (omega (arith, paired, few)) in
      (
        record {
          indexes = files;
          fname_list = write_all_names (datasets_of parts);
          merged_taints = first.ds.taints;
        },
        record {
          name = name;
          id = id;
          files_index = open_file_index (write_all_names (datasets_of parts)) none;
          indices = indices;
          taints = first.ds.taints;
        },
        merge-steps first second others e taints types files done,
        rw reads refl,
        record { named = rw names named; paired = paired; few = few; indexes = of },
        index_types-types_of _ first.ds kinds,
        refl,
      )
