-- ===== src/Dataset/Parts.antt =====
-- The datasets of a merge (libursa/OnDiskDataset.cpp) as the sources of the merges of their indexes.
use ursadb.Prelude.{
  ℕ, zero, suc, ◌+◌, ◌*◌, ◌^◌, ◌≤◌, ◌<◌, ◌≡◌, refl, sym, ap, ◌∙◌, true, List, [], ◌∷◌, ◌++◌, arith,
  length, length-append, ◌==◌, All, IsRun, IsRunFrom, IsU32, u32, ok, Bool-cases, inl, inr,
}
use mathlib.Core.Path.{subst}
use ursadb.Builder.Size.{length-encoding}
use ursadb.Codec.Encoding.{encoding}
use ursadb.Core.{IndexType, raw, num_trigrams}
use ursadb.Index.Bytes.{as_index_file}
use ursadb.Index.File.{OnDiskIndex, read_run_offsets}
use ursadb.Index.Files.{HoldsFiles}
use ursadb.Index.Layout.{coded, layout, start_of, run_array-layout}
use ursadb.Index.MergeHolds.{all_files}
use ursadb.Index.Merged.{Source, helpers, IsSource, file_total}
use ursadb.Dataset.Files.{IndexOf, IsDataset, type_of_test}
use ursadb.Dataset.Merge.{helper_of, helpers_of}
use ursadb.Dataset.State.{OnDiskDataset, get_index_with_type, types_to_query}

-- A dataset with its files and their names.
pub record Part : Type 0 where
  pub ds : OnDiskDataset
  pub names : List (List ℕ)
  pub files : List (List ℕ)

abbrev pub datasets_of : List Part → List OnDiskDataset
datasets_of [] = []
datasets_of (p ∷ parts) = p.ds ∷ datasets_of parts

abbrev pub part_names : List Part → List (List ℕ)
part_names [] = []
part_names (p ∷ parts) = p.names ++ part_names parts

abbrev pub part_files : List Part → List (List ℕ)
part_files [] = []
part_files (p ∷ parts) = p.files ++ part_files parts

abbrev pub IsPart : Part → Type 0
IsPart p = IsDataset p.ds p.names p.files

abbrev pub HasIndex : IndexType → Part → Type 0
HasIndex type p = types_to_query p.ds.indices type ≡ true

-- The index that `get_index_with_type` gives.
get_index_with_type-IndexOf :
    (files : List (List ℕ)) (type : IndexType) (indices : List OnDiskIndex)
    → All (IndexOf files) indices
    → types_to_query indices type ≡ true
    → (ndx : OnDiskIndex) × (get_index_with_type indices type ≡ ok ndx)
      × (ndx.ntype ≡ type)
      × IndexOf files ndx
unfolding get_index_with_type types_to_query
get_index_with_type-IndexOf files type [] h there = absurd (ground (arith, there))
get_index_with_type-IndexOf files type (ndx ∷ indices) h there =
    elim (Bool-cases (raw ndx.ntype == raw type)) [
      | inl this ↦ (ndx, rw (this, get_index_with_type) refl, type_of_test ndx.ntype type this, h.0)
      | inr other ↦
          let (found, e, t, of) =
            get_index_with_type-IndexOf files type indices h.1 (rw other at there) in
          (found, rw (other, get_index_with_type) e, t, of)
    ]

-- The dataset as a source of the merge of the indexes of a type.
helper_of-IsSource :
    (type : IndexType) (p : Part)
    → IsPart p
    → HasIndex type p
    → (s : Source) × (helper_of p.ds type ≡ ok s.helper) × IsSource type s × (s.files ≡ p.files)
unfolding helper_of
helper_of-IsSource type p h there =
    let (ndx, found, typed, of) =
      get_index_with_type-IndexOf p.files type p.ds.indices h.indexes there in
    let count : u32 p.ds.files_index.file_count ≡ length p.files =
      omega (arith, h.named.counted, h.paired, h.few) in
    let file : ndx.ndxfile ≡ as_index_file (layout type of.run num_trigrams) =
      of.file ∙ ap (λ ty. as_index_file (layout ty of.run num_trigrams)) typed in
    (
      record {
        helper = record {
          index = ndx;
          file_count = u32 p.ds.files_index.file_count;
          run_offset_cache = read_run_offsets ndx.ndxfile;
        };
        run = of.run;
        files = p.files;
      },
      rw found refl,
      record {
        file = file;
        typed = typed;
        offsets = λ t le.
            ap (λ f. read_run_offsets f t) file
            ∙ unfold read_run_offsets in run_array-layout type of.run of.fits t le;
        fits = of.fits;
        runs = of.runs;
        ids = λ t. subst (λ n. All (λ a. a < n) (of.run t)) (sym count) (of.ids t);
        counted = sym count;
        holds = subst (λ ty. HoldsFiles ty of.run p.files) typed of.holds;
      },
      refl,
    )

pub helpers_of-IsSource :
    (type : IndexType) (parts : List Part)
    → All IsPart parts
    → All (HasIndex type) parts
    → (sources : List Source) × (helpers_of (datasets_of parts) type ≡ ok (helpers sources))
      × All (IsSource type) sources
      × (all_files sources ≡ part_files parts)
unfolding helpers_of
helpers_of-IsSource type [] h there = ([], refl, tt, refl)
helpers_of-IsSource type (p ∷ parts) h there =
    let (s, e, is_source, files) = helper_of-IsSource type p h.0 there.0 in
    let (sources, f, are_sources, more) = helpers_of-IsSource type parts h.1 there.1 in
    (
      s ∷ sources,
      rw (e, f) refl,
      (is_source, are_sources),
      ap (λ fs. fs ++ all_files sources) files ∙ ap (λ fs. p.files ++ fs) more,
    )

pub file_total-files :
    (type : IndexType) (sources : List Source)
    → All (IsSource type) sources
    → file_total sources ≡ length (all_files sources)
file_total-files type [] h = refl
file_total-files type (s ∷ sources) h = omega (
  arith,
  h.0.counted,
  file_total-files type sources h.1,
  length-append s.files (all_files sources),
)

-- A run of ids below a bound is no longer than that.
run_short :
    (base n : ℕ) (ids : List ℕ)
    → base ≤ n
    → IsRunFrom base ids
    → All (λ a. a < n) ids
    → base + length ids ≤ n
run_short base n [] le run below = omega (arith, le)
run_short base n (a ∷ ids) le run below =
    omega (arith, run.0, run_short (suc a) n ids (omega (arith, below.0)) run.1 below.1)

-- Coded runs of a bounded length.
pub coded_short :
    (run : ℕ → List ℕ) (n i count : ℕ)
    → ((t : ℕ) → length (encoding 0 (run t)) ≤ n)
    → length (coded run i count) ≤ count * n
unfolding coded
coded_short run n i zero h = omega arith
coded_short run n i (suc count) h = omega (
  arith,
  h i,
  coded_short run n (suc i) count h,
  length-append (encoding 0 (run i)) (coded run (suc i) count),
)

-- An index of fewer than 2 ^ 32 files stays far below the end of 64 bits.
pub start_of-fits :
    (run : ℕ → List ℕ) (n : ℕ)
    → n < 2 ^ 32
    → ((t : ℕ) → IsRun (run t))
    → ((t : ℕ) → All (λ a. a < n) (run t))
    → ((t : ℕ) → All IsU32 (run t))
    → start_of run num_trigrams < 2 ^ 64
start_of-fits run n few runs below small = omega (
  arith,
  coded_short run (5 * n) 0 num_trigrams (λ t. omega (
    arith,
    length-encoding 0 (run t) (small t),
    run_short 0 n (run t) (omega arith) (runs t) (below t),
  )),
)
