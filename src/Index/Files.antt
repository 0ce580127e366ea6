-- ===== src/Index/Files.antt =====
-- What an index of some files holds (libursa/DatasetBuilder.cpp gives the ids 0, 1, 2, ... to the
-- files that it adds), and that a saved index answers for them.
use ursadb.Prelude.{
  Bool-cases, inl, inr, ℕ, zero, suc, ◌+◌, ◌^◌, ◌<◌, ◌≡◌, refl, ◌∙◌, Bool, false, ◌&&◌, ◌||◌, List,
  [], ◌∷◌, ◌++◌, arith, ◌==◌, if◌then◌else◌, elem, length, All, IsRun, IsU32, ok,
}
use ursadb.Core.{IndexType, num_trigrams, gram3, text4, hash4, wide8}
use ursadb.Ngram.Generators.{
  get_generator_for, gen_trigrams, gen_b64grams, gen_h4grams, gen_wide_b64grams,
}
use ursadb.Query.Occurs.{indexed}
use ursadb.Query.Syntax.{PrimitiveQuery}
use ursadb.QueryResult.Ops.{QueryResult}
use ursadb.QueryResult.Sets.{Means, Means-ext}
use ursadb.Index.File.{open_index, query}
use ursadb.Index.Bytes.{as_index_file}
use ursadb.Index.Layout.{layout, start_of}
use ursadb.Index.Built.{open_index-layout, query-layout}

-- The bytes of the file of an id; an id that no file has counts as a file with no bytes.
unfoldable pub file_at : List (List ℕ) → ℕ → List ℕ
file_at [] a = []
file_at (mem ∷ files) zero = mem
file_at (mem ∷ files) (suc a) = file_at files a

abbrev pub gram : IndexType → ℕ → PrimitiveQuery
gram type t = record { itype = type; trigram = t }

-- The runs are those of the ngrams of the files.
abbrev pub HoldsFiles : IndexType → (ℕ → List ℕ) → List (List ℕ) → Type 0
HoldsFiles type run files =
    (t a : ℕ) → t < num_trigrams → elem a (run t) ≡ indexed (file_at files a) (gram type t)

pub file_at-append :
    (files : List (List ℕ)) (mem : List ℕ) (a : ℕ)
    → file_at (files ++ mem ∷ []) a ≡ (if a == length files then mem else file_at files a)
unfolding file_at
file_at-append [] mem zero = refl
file_at-append [] mem (suc a) = ground arith
file_at-append (m ∷ files) mem zero = ground arith
file_at-append (m ∷ files) mem (suc a) = file_at-append files mem a ∙ ground arith

pub no_ngrams : (type : IndexType) → get_generator_for type [] ≡ []
unfolding get_generator_for gen_trigrams gen_b64grams gen_h4grams gen_wide_b64grams
no_ngrams gram3 = refl
no_ngrams text4 = refl
no_ngrams hash4 = refl
no_ngrams wide8 = refl

pub indexed-none : (g : PrimitiveQuery) → indexed [] g ≡ false
unfolding indexed
indexed-none g = rw (no_ngrams g.itype) refl

pub file_at-behind : (files : List (List ℕ)) (n : ℕ) → file_at files (length files + n) ≡ []
unfolding file_at
file_at-behind [] n = refl
file_at-behind (m ∷ files) n =
    let e : suc (length files) + n ≡ suc (length files + n) = omega arith in
    rw e (file_at-behind files n)

-- One file more: its id has its ngrams.
pub indexed-append :
    (type : IndexType) (files : List (List ℕ)) (mem : List ℕ) (t a : ℕ) (old : Bool)
    → old ≡ indexed (file_at files a) (gram type t)
    → ((a == length files) && elem t (get_generator_for type mem) || old)
      ≡ indexed (file_at (files ++ mem ∷ []) a) (gram type t)
indexed-append type files mem t a old h =
    rw (file_at-append files mem a) (elim (Bool-cases (a == length files)) [
      | inl same ↦
          let e : a ≡ length files = ground arith in
          let z : length files + 0 ≡ length files = omega arith in
          let behind = rw z at (file_at-behind files 0) in
          rw (same, h, e, behind, indexed-none (gram type t)) (unfold indexed in ground arith)
      | inr other ↦ rw other h
    ])

-- A saved index is opened with its type, and answers a query for an ngram with the files that have
-- the ngram.
pub layout-answers :
    (type : IndexType) (run : ℕ → List ℕ) (files : List (List ℕ)) (t : ℕ)
    → start_of run num_trigrams < 2 ^ 64
    → HoldsFiles type run files
    → t < num_trigrams
    → IsRun (run t)
    → All IsU32 (run t)
    → (r : QueryResult) × (open_index (as_index_file (layout type run num_trigrams)) ≡ ok type)
      × (query (as_index_file (layout type run num_trigrams)) t ≡ ok r)
      × Means r (λ a. indexed (file_at files a) (gram type t))
layout-answers type run files t fits holds below is_run small =
    let (r, answered, means) = query-layout type run fits t below is_run small in
    (r, open_index-layout type run fits, answered, Means-ext (λ a. holds t a below) means)
