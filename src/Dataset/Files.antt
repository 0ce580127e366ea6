-- ===== src/Dataset/Files.antt =====
-- What a dataset of some files is to be (libursa/OnDiskDataset.h): the names of the files, and
-- indexes that hold their ngrams. Each index answers for the files.
use ursadb.Prelude.{
  ℕ, ◌^◌, ◌<◌, ◌≡◌, ap, ◌∙◌, true, List, [], ◌∷◌, arith, length, All, IsRun, IsU32, ◌==◌,
  Bool-cases, inl, inr,
}
use ursadb.Core.{IndexType, raw, num_trigrams}
use ursadb.Optimizer.Deduplicate.{raw-injective}
use ursadb.FileIndex.Lookup.{Holds}
use ursadb.Index.File.{OnDiskIndex, query}
use ursadb.Index.Bytes.{as_index_file}
use ursadb.Index.Layout.{layout, start_of}
use ursadb.Index.Files.{file_at, gram, HoldsFiles, layout-answers}
use ursadb.Query.Occurs.{indexed}
use ursadb.Query.Syntax.{PrimitiveQuery}
use ursadb.QueryResult.Branches.{ResultOf}
use ursadb.Search.{Indexed}
use ursadb.Dataset.State.{OnDiskDataset, query_primitive, types_to_query}

-- An index of these files.
pub record IndexOf (files : List (List ℕ)) (ndx : OnDiskIndex) : Type 0 where
  pub run : ℕ → List ℕ
  pub file : ndx.ndxfile ≡ as_index_file (layout ndx.ntype run num_trigrams)
  pub fits : start_of run num_trigrams < 2 ^ 64
  pub runs : (t : ℕ) → IsRun (run t)
  pub ids : (t : ℕ) → All (λ a. a < length files) (run t)
  pub holds : HoldsFiles ndx.ntype run files

pub record IsDataset (ds : OnDiskDataset) (names files : List (List ℕ)) : Type 0 where
  pub named : Holds ds.files_index names
  pub paired : length names ≡ length files
  pub few : length files < 2 ^ 32
  pub indexes : All (IndexOf files) ds.indices

pub type_of_test : (s t : IndexType) → (raw s == raw t) ≡ true → s ≡ t
type_of_test s t h = raw-injective s t (ground arith)

All-small : (ids : List ℕ) (n : ℕ) → n < 2 ^ 32 → All (λ a. a < n) ids → All IsU32 ids
All-small [] n few h = tt
All-small (a ∷ ids) n few h = (omega (arith, h.0), All-small ids n few h.1)

module _ (files : List (List ℕ)) (few : length files < 2 ^ 32) where
  IndexOf-answers :
      (ndx : OnDiskIndex) (t : ℕ)
      → IndexOf files ndx
      → t < num_trigrams
      → ResultOf (query ndx.ndxfile t) (λ a. indexed (file_at files a) (gram ndx.ntype t))
  IndexOf-answers ndx t of below =
      let (r, opened, answered, means) =
        layout-answers ndx.ntype of.run files t of.fits of.holds below (of.runs t)
          (All-small (of.run t) (length files) few (of.ids t)) in
      (r, ap (λ f. query f t) of.file ∙ answered, means)

  -- The first index of the ngram's type answers.
  pub query_primitive-answers :
      (indices : List OnDiskIndex) (g : PrimitiveQuery)
      → All (IndexOf files) indices
      → Indexed (types_to_query indices) g
      → ResultOf (query_primitive indices g) (λ a. indexed (file_at files a) g)
  unfolding query_primitive types_to_query
  query_primitive-answers [] g h there = absurd (ground (arith, there.0))
  query_primitive-answers (ndx ∷ indices) g h there =
      elim (Bool-cases (raw ndx.ntype == raw g.itype)) [
        | inl this ↦
            rw (this, query_primitive)
              (rw (type_of_test ndx.ntype g.itype this) at
                (IndexOf-answers ndx g.trigram h.0 there.1))
        | inr other ↦
            rw (other, query_primitive)
              (query_primitive-answers indices g h.1 (rw other at there.0, there.1))
      ]
