-- ===== src/Tests/Merges.antt =====
-- `on_disk_merge` (libursa/OnDiskIndex.cpp) on two indexes of a file each.
use ursadb.Prelude.{
  ℕ, ◌-◌, ◌*◌, ◌^◌, ◌≤◌, ◌<◌, ◌≡◌, refl, Bool, true, List, All, [], ◌∷◌, ◌++◌, arith, ok, err,
  unexpected_index_type, length, ◌==◌, Bool-cases, inl, inr,
}
use ursadb.Codec.Bytes.{put_diff_small}
use ursadb.Codec.Encoding.{encoding}
use ursadb.Core.{gram3, hash4, num_trigrams, raw}
use ursadb.Dataset.Parts.{coded_short}
use ursadb.Index.Batch.{
  IndexMergeHelper, batch_bytes, run_size, find_max_batch, find_max_batch_unchecked,
}
use ursadb.Index.Bytes.{as_index_file}
use ursadb.Index.File.{open_index, query}
use ursadb.Index.Files.{file_at, gram}
use ursadb.Index.Layout.{start_of}
use ursadb.Index.Merge.{on_disk_merge, max_batch_bytes, read_bytes}
use ursadb.Index.MergeHolds.{all_files}
use ursadb.Index.MergeAnswers.{merge_answers, merge_refuses}
use ursadb.Index.MergeLoop.{Fits}
use ursadb.Index.Merged.{Source, IsSource, helpers, merged, file_total}
use ursadb.Query.Occurs.{indexed}
use ursadb.QueryResult.Ops.{QueryResult}
use ursadb.QueryResult.Sets.{Means}
use ursadb.Tests.Sample.{
  abc_files, abc_gram, abc_run, abc_index, abc_holds, abc_runs, abc_ids, abc_fits, abc_size,
}

abbrev abc_helper : IndexMergeHelper
abc_helper = record { index = abc_index; file_count = 1; run_offset_cache = start_of abc_run }

abbrev abc_source : Source
abc_source = record { helper = abc_helper; run = abc_run; files = abc_files }

abc_source-IsSource : IsSource gram3 abc_source
abc_source-IsSource = record {
  file = refl;
  typed = refl;
  offsets = λ t h. refl;
  fits = abc_fits;
  runs = abc_runs;
  ids = abc_ids;
  counted = refl;
  holds = abc_holds;
}

abbrev two : List Source
two = abc_source ∷ abc_source ∷ []

two-IsSource : All (IsSource gram3) two
two-IsSource = (abc_source-IsSource, (abc_source-IsSource, tt))

abbrev pub takes_all : List ℕ → List ℕ → Bool
takes_all written buffer = true

two_bytes :
    (t j : ℕ) → (batch_bytes (helpers two) t j ≤ 2 * j) × (read_bytes (helpers two) t j ≤ 2 * j)
unfolding batch_bytes read_bytes run_size
two_bytes t j = let size = abc_size t j in (omega (arith, size), omega (arith, size))

two_batch :
    (t : ℕ) → t < num_trigrams → find_max_batch (helpers two) t max_batch_bytes ≡ num_trigrams - t
two_batch t h =
    (find_max_batch_unchecked (helpers two) t max_batch_bytes h).1
      (λ j below. omega (arith, (two_bytes t j).0))

two_few : file_total two < 2 ^ 32
two_few = omega arith

two-Fits : Fits takes_all (λ f b. refl) gram3 two two-IsSource two_few
two-Fits t h = rw (two_batch t h) (omega arith, omega (arith, (two_bytes t (num_trigrams - t)).1))

merged_short : (t : ℕ) → length (encoding 0 (merged 0 two t)) ≤ 2
unfolding merged encoding
merged_short t = elim (Bool-cases (t == abc_gram)) [
  | inl here ↦ rw (here, put_diff_small 0 (omega arith)) (omega arith)
  | inr away ↦ rw away (omega arith)
]

two_fits : start_of (merged 0 two) num_trigrams < 2 ^ 64
two_fits = omega (arith, coded_short (merged 0 two) 2 0 num_trigrams merged_short)

merge_answers_example :
    (file : List ℕ) × (r : QueryResult) × (on_disk_merge takes_all gram3 (helpers two) ≡ ok file)
    × (open_index (as_index_file file) ≡ ok gram3)
    × (query (as_index_file file) abc_gram ≡ ok r)
    × Means r (λ a. indexed (file_at (all_files two) a) (gram gram3 abc_gram))
merge_answers_example =
    merge_answers takes_all (λ f b. refl) gram3 two two-IsSource two_few two-Fits two_fits abc_gram
      (omega arith)

merge_refuses_example :
    on_disk_merge takes_all hash4 ([] ++ abc_helper ∷ []) ≡ err unexpected_index_type
merge_refuses_example =
    merge_refuses takes_all hash4 gram3 [] [] abc_helper refl (unfold raw in refl)
