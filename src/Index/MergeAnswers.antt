-- ===== src/Index/MergeAnswers.antt =====
-- The index that `on_disk_merge` (libursa/OnDiskIndex.cpp) writes answers for the files of all the
-- merged indexes.
use ursadb.Prelude.{
  ℕ, ◌+◌, ◌^◌, ◌<◌, ◌≡◌, refl, ap, ◌∙◌, Bool, true, false, List, [], ◌∷◌, ◌++◌, ◌==◌, arith, All,
  ok, err, unexpected_index_type,
}
use mathlib.Core.List.{append_assoc}
use ursadb.Codec.Flushed.{flush_lem}
use ursadb.Codec.Posix.{PosixRunWriter, new_posix, flush}
use ursadb.Core.{IndexType, num_trigrams, raw}
use ursadb.Query.Occurs.{indexed}
use ursadb.QueryResult.Ops.{QueryResult}
use ursadb.QueryResult.Sets.{Means}
use ursadb.Index.File.{open_index, query}
use ursadb.Index.Bytes.{header_bytes, as_index_file}
use ursadb.Index.Layout.{coded, offsets_of, layout, header_of, words64, start_of}
use ursadb.Index.Files.{file_at, gram, layout-answers}
use ursadb.Index.Batch.{IndexMergeHelper}
use ursadb.Index.Merge.{merge_loop, have_type, on_disk_merge_core, on_disk_merge}
use ursadb.Index.Merged.{Source, helpers, IsSource, merged, file_total, bound-IsU32}
use ursadb.Index.MergeLoop.{Fits, cells_of-end, new_posix-IsFresh, merge_loop-merged}
use ursadb.Index.MergeHolds.{all_files, merged-IsRunFrom, merged-HoldsFiles}

module _ (type : IndexType) where
  same_type :
      (sources : List Source)
      → All (IsSource type) sources
      → have_type type (helpers sources) ≡ true
  unfolding have_type
  same_type [] h = refl
  same_type (s ∷ sources) h =
      let e : raw s.helper.index.ntype ≡ raw type = ap raw h.0.typed in
      ground (arith, e, same_type sources h.1)

other_type :
    (type other : IndexType) (before after : List IndexMergeHelper) (ndx : IndexMergeHelper)
    → ndx.index.ntype ≡ other
    → (raw other == raw type) ≡ false
    → have_type type (before ++ ndx ∷ after) ≡ false
unfolding have_type
other_type type other [] after ndx e differs =
    let f : raw ndx.index.ntype ≡ raw other = ap raw e in rw (f, differs) refl
other_type type other (first ∷ before) after ndx e differs =
    ground (arith, other_type type other before after ndx e differs)

module _ (accepts : List ℕ → List ℕ → Bool) where
  core-finish :
      (indexes : List IndexMergeHelper) (out body cells : List ℕ) (end : ℕ) (w w' : PosixRunWriter)
      → merge_loop accepts indexes num_trigrams 0 (new_posix out) 16 ≡ ok (w, end, cells)
      → flush accepts w ≡ ok w'
      → w'.file ≡ out ++ body
      → on_disk_merge_core accepts indexes out ≡ ok ((out ++ body) ++ words64 (cells ++ end ∷ []))
  unfolding on_disk_merge_core
  core-finish indexes out body cells end w w' done flushed file = rw (done, flushed, file) refl

module _ (accepts : List ℕ → List ℕ → Bool) (accepts_all : (f b : List ℕ) → accepts f b ≡ true)
    (type : IndexType) (sources : List Source) (laid_out : All (IsSource type) sources)
    (few : file_total sources < 2 ^ 32)
    (batches : Fits accepts accepts_all type sources laid_out few)
    (fits : start_of (merged 0 sources) num_trigrams < 2 ^ 64) where
  merge_core-layout :
      (out : List ℕ)
      → on_disk_merge_core accepts (helpers sources) out
        ≡ ok (
            out
            ++ (coded (merged 0 sources) 0 num_trigrams
                ++ words64 (offsets_of (merged 0 sources) 16 0 num_trigrams)))
  merge_core-layout out =
      let runs = merged 0 sources in
      let bytes = coded runs 0 num_trigrams in
      let (fresh, start) = new_posix-IsFresh out in
      let (w, done, wrote) =
        merge_loop-merged accepts accepts_all type sources laid_out few batches num_trigrams
          num_trigrams 0 (new_posix out) 16 refl (omega arith) fresh fits in
      let (w', flushed, file) = flush_lem accepts accepts_all w in
      core-finish accepts (helpers sources) out bytes _ _ w w' done flushed
        (file ∙ wrote ∙ ap (λ bs. bs ++ bytes) start)
      ∙ ap (λ cells. ok ((out ++ bytes) ++ words64 cells)) (cells_of-end runs 16 0 num_trigrams)
      ∙ ap ok (append_assoc out bytes (words64 (offsets_of runs 16 0 num_trigrams)))

  -- The file is that of an index of the merged runs.
  pub on_disk_merge-layout :
      on_disk_merge accepts type (helpers sources)
      ≡ ok (layout type (merged 0 sources) num_trigrams)
  unfolding on_disk_merge
  on_disk_merge-layout =
      rw (same_type type sources laid_out)
        (merge_core-layout (header_bytes (header_of type)) ∙ unfold layout in refl)

  -- Where the system call takes every buffer, indexes of one type, whose runs are of the files of
  -- their datasets, are merged without an exception if every batch has a run and fits into its
  -- vector; the merged index can be opened, and answers every query with the files of all of them that
  -- have the ngram, under the ids moved up. (All files together are fewer than 2 ^ 32, and the offsets
  -- fit into 64 bits.)
  pub merge_answers :
      (t : ℕ)
      → t < num_trigrams
      → (file : List ℕ) × (r : QueryResult) × (on_disk_merge accepts type (helpers sources)
          ≡ ok file)
        × (open_index (as_index_file file) ≡ ok type)
        × (query (as_index_file file) t ≡ ok r)
        × Means r (λ a. indexed (file_at (all_files sources) a) (gram type t))
  unfolding on_disk_merge
  merge_answers t below =
      let runs = merged 0 sources in
      let (is_run, bounded) = merged-IsRunFrom type sources 0 t laid_out in
      let (r, opened, answered, means) =
        layout-answers type runs (all_files sources) t fits
          (λ u a under.
            let z : 0 + a ≡ a = omega arith in
            rw z at (merged-HoldsFiles type sources 0 u a laid_out under))
          below is_run (bound-IsU32 (0 + file_total sources) (runs t) (omega arith) bounded) in
      (
        layout type runs num_trigrams,
        r,
        rw (same_type type sources laid_out)
            (merge_core-layout (header_bytes (header_of type)) ∙ unfold layout in refl),
        opened,
        answered,
        means,
      )

-- Indexes of which one has another type are not merged.
pub merge_refuses :
    (accepts : List ℕ → List ℕ → Bool) (type other : IndexType)
    (before after : List IndexMergeHelper) (ndx : IndexMergeHelper)
    → ndx.index.ntype ≡ other
    → (raw other == raw type) ≡ false
    → on_disk_merge accepts type (before ++ ndx ∷ after) ≡ err unexpected_index_type
unfolding on_disk_merge
merge_refuses accepts type other before after ndx e differs =
    rw (other_type type other before after ndx e differs) refl
