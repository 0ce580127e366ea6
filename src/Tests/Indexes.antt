-- ===== src/Tests/Indexes.antt =====
-- libursa/OnDiskIndex.cpp at concrete files.
use ursadb.Prelude.{
  ◌↔◌, ℕ, ◌+◌, ◌-◌, ◌≤◌, ◌<◌, ◌≡◌, ◌⊎◌, refl, List, [], ◌∷◌, arith, ◌==◌, if◌then◌else◌, true,
}
use ursadb.Core.{gram3, raw, num_trigrams, db_magic, is_valid_index_type}
use ursadb.Codec.Encoding.{encoding}
use ursadb.Index.File.{IndexFile, OnDiskIndex, data_offset, run_array_size, index_version}
use ursadb.Index.Batch.{
  IndexMergeHelper, batch_bytes, run_size, find_max_batch, find_max_batch-greatest,
  find_max_batch_unchecked,
}

-- An index in which the files 2 and 5 have the ngram 0, and no others are coded.
abbrev small_index : IndexFile
small_index = record {
  index_size = data_offset + 2 + run_array_size;
  header = record { magic = db_magic; version = index_version; raw_type = 1; reserved = 0 };
  run_array = λ i. if i == 0 then 16 else 18;
  pread = λ len at. encoding 0 (2 ∷ 5 ∷ []);
}

abbrev broken_index : IndexFile
broken_index = record small_index { run_array = λ i. if i == 0 then 18 else 16 }

valid_one : is_valid_index_type 1 ≡ true
unfolding is_valid_index_type raw
valid_one = refl

abbrev opened : OnDiskIndex
opened = record { ndxfile = small_index; ntype = gram3 }

abbrev growing : List IndexMergeHelper
growing = record { index = opened; run_offset_cache = λ i. 100 + i; file_count = 3 } ∷ []

find_max_batch-greatest_example :
    ((j : ℕ)
      → j ≤ find_max_batch growing 5 20
      → j < num_trigrams - 5
      → batch_bytes growing 5 j ≤ 20)
    × ((find_max_batch growing 5 20 ≡ num_trigrams - 5)
        ⊎ ((find_max_batch growing 5 20 + 1 < num_trigrams - 5)
            × (20 < batch_bytes growing 5 (find_max_batch growing 5 20 + 1))))
find_max_batch-greatest_example = find_max_batch-greatest growing 5 20 (omega arith)

-- All runs are empty but the last one.
abbrev last_only : List IndexMergeHelper
last_only =
    record {
      index = opened;
      run_offset_cache = λ i. if i == num_trigrams then 1000 else 100;
      file_count = 3;
    }
    ∷ []

small_before : (j : ℕ) → j < num_trigrams - 16777210 → batch_bytes last_only 16777210 j ≤ 20
unfolding batch_bytes run_size
small_before j h = ground arith

-- All that is left is taken, although it does not fit.
last_bytes :
    (find_max_batch last_only 16777210 20 ≡ num_trigrams - 16777210)
    × (20 < batch_bytes last_only 16777210 (num_trigrams - 16777210))
unfolding batch_bytes run_size
last_bytes =
    ((find_max_batch_unchecked last_only 16777210 20 (omega arith)).1 small_before, omega arith)

find_max_batch_unchecked_example :
    (find_max_batch last_only 16777210 20 ≡ num_trigrams - 16777210)
    ↔ ((j : ℕ) → j < num_trigrams - 16777210 → batch_bytes last_only 16777210 j ≤ 20)
find_max_batch_unchecked_example = find_max_batch_unchecked last_only 16777210 20 (omega arith)
