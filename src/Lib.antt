-- ===== src/Lib.antt =====
-- A verification library for UrsaDB, which indexes the ngrams of files and answers which files may
-- contain a string, or a combination of strings.
--
-- A file's bytes go through the ngram generators of libursa/Utils.cpp into an index builder
-- (libursa/FlatIndexBuilder.cpp, libursa/BitmapIndexBuilder.cpp), which saves an index file: for each
-- ngram the coded run of the ids of the files that have it. A dataset (libursa/OnDiskDataset.cpp) has
-- some files, a list of their names (libursa/OnDiskFileIndex.cpp), and an index of them of every type
-- (libursa/OnDiskIndex.cpp). A query is planned to ngrams (libursa/Query.cpp), optimized
-- (libursa/QueryOptimizer.cpp), and run over the answers of the indexes with the set operations of
-- libursa/QueryResult.cpp and libursa/SortedRun.cpp; a snapshot of the database
-- (libursa/DatabaseSnapshot.cpp) does so for each of its datasets, and chooses small datasets that
-- are merged into one. The database (libursa/Database.cpp) runs tasks under locks, and collects what
-- is no longer in use.
--
-- The files, and what they are about:
--   Prelude: tests, lists and words over the native numbers; results of code that throws.
--   Codec: the coding of runs in libursa/Utils.cpp. Reader has read_compressed_run,
--     decompress_single and RunIterator; Writer has RunWriter and compress_run; Posix has
--     PosixRunWriter with write_raw, flush and reset. Encoding states the coding by itself;
--     RoundTrip, Iterator and RawCopy relate it to the code.
--   SortedRun: the class SortedRun with both representations (Runs), the two algorithms of the
--     standard library that it calls (Sets), and pick_common (Pick). Represents and Common say which
--     list of ids a run stands for.
--   QueryResult: the class QueryResult (Ops), and the sets that results stand for (Sets, MinOf).
--   Query: the class Query (Syntax), tokens (Token), run (Run) and plan (Plan); Meaning says for
--     which files a planned query holds, and Occurs what an unplanned one asks of a file's bytes.
--   Ngram: the generators (Generators) and convert_gram (Convert), and what they miss and do not.
--   Optimizer: the passes (Passes), their loop (Optimize), and a file for each pass.
--   Core: the index types. Config: libursa/DatabaseConfig.cpp.
--   Index: libursa/OnDiskIndex.cpp, a file and its queries (File), its bytes (Bytes, Layout), and
--     the merge of indexes (Batch, Merge). Built, Files, Merged and MergeHolds say what an index
--     holds of some files.
--   Builder: the two index builders (Bitmap, Flat) and the radix sort (Radix). BitmapRuns, Flat..., Buckets and
--     CountSort, RadixSort, Sorted relate them to the layout of an index.
--   DatasetBuilder: libursa/DatasetBuilder.cpp, the files that it indexes (Build, Held).
--   FileIndex: the names of the files of a dataset (Names), and what an iterator pops (Pop).
--   Dataset: the class OnDiskDataset (State) and its merge (Merge). Files and Parts say what a dataset
--     of some files is; Answers and Merged are about execute and merge, Types about which types of
--     indexes there are, and Compatible about what merge checks.
--   Snapshot: the class DatabaseSnapshot: queries (State), the choice of datasets for a merge
--     (Compatible, Candidates), and compacting (Compact). Classes says what the key of a dataset
--     tells, CanMerge what datasets are to be for a merge, and Locked which ones a task has locked.
--   Database: tasks and locks (Tasks, with libursa/Task.cpp and libursa/DatabaseLock.h), datasets
--     behind pointers (Datasets), and iterators (Iterators). Held and Holders are about who holds a
--     lock.
--   Search: planning, optimizing and running, one after the other, as Dataset does.
--   Tests: the theorems at concrete inputs.
--
-- How the code is written: a method that changes its object returns the changed one; an exception
-- is a value of Result; a number is a natural number, with the wrap-around of its type written out
-- where the code can reach it; bytes are numbers below 256. A pointer into a buffer is the list of
-- the bytes from there to the end, and a pointer to a dataset is the number of the object.
--
-- Fuel: RunIterator is iterated once for each byte at most; pick_common takes an element in every
-- round; the loop of q_optimize makes a query smaller in every round that it repeats, by a measure
-- of the nodes of the query; a merge takes an ngram at least in every round; count_bytes takes four
-- rounds for 32 bits. That these amounts are enough is part of the theorems on them. The loop that
-- writes a number goes by well-founded recursion, and the other loops are structural.
--
-- What is not under libursa is a parameter: whether the system call takes what it is given to
-- write, what it gives for a read, the clock, std::sort, of which only its contract is known, and the
-- names that are drawn at random. Counters, log messages, prefetching, JSON and the removal of files
-- are left out. Not modelled are the choice of a builder for a file (libursa/Indexer.cpp), loading
-- and saving the database, commit_task, the parser of the query language, which is a set of templates
-- for a vendored library, and the commands.
pub mod Prelude
pub mod Codec
pub mod SortedRun
pub mod QueryResult
pub mod Core
pub mod Ngram
pub mod Query
pub mod Optimizer
pub mod Config
pub mod Database
pub mod Index
pub mod FileIndex
pub mod DatasetBuilder
pub mod Dataset
pub mod Snapshot
pub mod Builder
pub mod Search
pub mod Tests
