-- ===== src/Builder/BitmapAnswers.antt =====
-- The index that `BitmapIndexBuilder` (libursa/BitmapIndexBuilder.cpp) saves answers for its files.
use ursadb.Prelude.{
  ℕ, ◌≤◌, ◌<◌, ◌≡◌, ◌∙◌, ◌⊎◌, inl, inr, Bool-cases, sym, refl, false, List, [], ◌∷◌, ◌++◌, arith,
  leb, length, ok, err, file_id_out_of_range, elem,
}
use ursadb.Core.{IndexType, num_trigrams}
use ursadb.Ngram.Generators.{get_generator_for}
use ursadb.Query.Occurs.{indexed}
use ursadb.QueryResult.Ops.{QueryResult}
use ursadb.QueryResult.Sets.{Means}
use ursadb.Index.File.{open_index, query}
use ursadb.Index.Bytes.{as_index_file}
use ursadb.Index.Layout.{layout}
use ursadb.Index.Files.{file_at, gram, HoldsFiles, indexed-append, layout-answers, indexed-none}
use ursadb.Builder.Bitmap.{
  BitmapIndexBuilder, max_files, new_bitmap, get_run, add_trigram, add_trigrams, add_file, save,
}
use ursadb.Builder.BitmapRuns.{
  HasBytes, get_run-IsRun, get_run-small, new_bitmap-HasBytes, elem-new_bitmap, elem-add_trigrams,
}
use ursadb.Builder.BitmapSave.{bitmap_fits, save-layout}

-- The builder has been given these files.
pub record BitmapHolds (b : BitmapIndexBuilder) (files : List (List ℕ)) : Type 0 where
  pub bytes : HasBytes b
  pub holds : HoldsFiles b.ntype (get_run b) files

none_held : (type : IndexType) (t a : ℕ) → indexed (file_at [] a) (gram type t) ≡ false
unfolding file_at
none_held type t a = indexed-none (gram type t)

pub new_bitmap-Holds : (type : IndexType) → BitmapHolds (new_bitmap type) []
unfolding new_bitmap
new_bitmap-Holds type = record {
  bytes = new_bitmap-HasBytes type;
  holds = λ t a below. elem-new_bitmap type t a ∙ sym (none_held type t a);
}

add_trigrams-ntype :
    (vals : List ℕ) (b : BitmapIndexBuilder) (fid : ℕ) → (add_trigrams b fid vals).ntype ≡ b.ntype
unfolding add_trigrams add_trigram
add_trigrams-ntype [] b fid = refl
add_trigrams-ntype (val ∷ vals) b fid = add_trigrams-ntype vals (add_trigram b fid val) fid

-- Adding a file under the next id to a builder that holds the files before it throws if there are
-- eight of them, and otherwise gives a builder that holds the file too.
pub add_file-BitmapHolds :
    (b : BitmapIndexBuilder) (files : List (List ℕ)) (mem : List ℕ)
    → BitmapHolds b files
    → ((max_files ≤ length files) × (add_file b (length files) mem ≡ err file_id_out_of_range))
      ⊎ ((b' : BitmapIndexBuilder) × (add_file b (length files) mem ≡ ok b')
          × (b'.ntype ≡ b.ntype)
          × BitmapHolds b' (files ++ mem ∷ []))
unfolding add_file
add_file-BitmapHolds b files mem h = elim (Bool-cases (leb max_files (length files))) [
  | inl full ↦ inl (ground arith, rw full refl)
  | inr room ↦
      let vals = get_generator_for b.ntype mem in
      let b' = add_trigrams b (length files) vals in
      let same = add_trigrams-ntype vals b (length files) in
      let (kept, member) = elem-add_trigrams vals b (length files) h.bytes (ground arith) in
      inr (
        b',
        rw room refl,
        same,
        record {
          bytes = kept;
          holds = λ t a below.
              member t a
              ∙ rw same
                  (indexed-append b.ntype files mem t a (elem a (get_run b t)) (h.holds t a below));
        },
      )
]

-- A builder that holds some files is saved to an index that can be opened, and answers every query
-- with the files that have the ngram.
pub bitmap_answers :
    (b : BitmapIndexBuilder) (files : List (List ℕ)) (t : ℕ)
    → BitmapHolds b files
    → t < num_trigrams
    → (file : List ℕ) × (r : QueryResult) × (save b ≡ ok file)
      × (open_index (as_index_file file) ≡ ok b.ntype)
      × (query (as_index_file file) t ≡ ok r)
      × Means r (λ a. indexed (file_at files a) (gram b.ntype t))
bitmap_answers b files t h below =
    let (r, opened, answered, means) =
      layout-answers b.ntype (get_run b) files t (bitmap_fits b) h.holds below (get_run-IsRun b t)
        (get_run-small b t) in
    (layout b.ntype (get_run b) num_trigrams, r, save-layout b, opened, answered, means)
