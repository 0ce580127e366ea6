-- ===== src/Tests/Builders.antt =====
-- The index builders of libursa/BitmapIndexBuilder.cpp and libursa/FlatIndexBuilder.cpp on a file.
use ursadb.Prelude.{
  ℕ, ◌+◌, ◌*◌, ◌^◌, ◌≤◌, ◌<◌, ◌≡◌, refl, sym, ◌∙◌, ◌⊎◌, inl, inr, Bool, true, false, List, [], ◌∷◌,
  arith, length, ok, err, file_id_out_of_range,
}
use mathlib.Core.Path.{subst}
use ursadb.Core.{gram3, text4}
use ursadb.Builder.Bitmap.{BitmapIndexBuilder, new_bitmap, max_files}
use ursadb.Builder.Bitmap as Bitmap
use ursadb.Builder.BitmapAnswers.{
  BitmapHolds, new_bitmap-Holds, add_file-BitmapHolds, bitmap_answers,
}
use ursadb.Builder.Flat.{FlatIndexBuilder, new_flat, max_trigrams}
use ursadb.Builder.Flat as Flat
use ursadb.Builder.FlatAnswers.{flat_answers}
use ursadb.Builder.FlatFiles.{FlatHolds, new_flat-FlatHolds, add_file-FlatHolds}
use ursadb.Builder.FlatRoom.{can_still_add-room}
use ursadb.Builder.Radix.{flat_radixsort}
use ursadb.Builder.Sorted.{flat_radixsort-sorted, Sorts}
use ursadb.DatasetBuilder.Build.{
  DatasetBuilder, flat_type, clear, can_still_add, has_line_break, index,
}
use ursadb.DatasetBuilder.Held.{BuilderHolds, clear-BuilderHolds, index-BuilderHolds}
use ursadb.Index.Bytes.{as_index_file}
use ursadb.Index.File.{open_index, query}
use ursadb.Index.Files.{file_at, gram}
use ursadb.Ngram.Generators.{get_generator_for}
use ursadb.Query.Occurs.{indexed}
use ursadb.QueryResult.Ops.{QueryResult}
use ursadb.QueryResult.Sets.{Means}
use ursadb.Tests.Sample.{abc_file, abc_files, abc_gram, abc_bytes, abc_grams}

add_file-BitmapHolds_example :
    ((max_files ≤ 0) × (Bitmap.add_file (new_bitmap gram3) 0 abc_file ≡ err file_id_out_of_range))
    ⊎ ((b' : BitmapIndexBuilder) × (Bitmap.add_file (new_bitmap gram3) 0 abc_file ≡ ok b')
        × (b'.ntype ≡ (new_bitmap gram3).ntype)
        × BitmapHolds b' abc_files)
add_file-BitmapHolds_example =
    add_file-BitmapHolds (new_bitmap gram3) [] abc_file (new_bitmap-Holds gram3)

abbrev one_bitmap : BitmapIndexBuilder
one_bitmap = Bitmap.add_trigrams (new_bitmap gram3) 0 (get_generator_for gram3 abc_file)

ok_injective : (b c : BitmapIndexBuilder) → ok b ≡ ok c → b ≡ c
ok_injective b c h = cc

one_bitmap-Holds : BitmapHolds one_bitmap abc_files
one_bitmap-Holds = elim add_file-BitmapHolds_example [
  | inl (full, e) ↦ absurd (omega (arith, full))
  | inr (b', e, same, h) ↦
      subst (λ b. BitmapHolds b abc_files) (ok_injective b' one_bitmap (sym e ∙ added)) h
]
  where
    added : Bitmap.add_file (new_bitmap gram3) 0 abc_file ≡ ok one_bitmap
    added = unfold Bitmap.add_file new_bitmap in refl

bitmap_answers_example :
    (file : List ℕ) × (r : QueryResult) × (Bitmap.save one_bitmap ≡ ok file)
    × (open_index (as_index_file file) ≡ ok one_bitmap.ntype)
    × (query (as_index_file file) abc_gram ≡ ok r)
    × Means r (λ a. indexed (file_at abc_files a) (gram one_bitmap.ntype abc_gram))
bitmap_answers_example = bitmap_answers one_bitmap abc_files abc_gram one_bitmap-Holds (omega arith)

abbrev one_flat : FlatIndexBuilder
one_flat = Flat.add_file (new_flat gram3) 0 abc_file

add_file-FlatHolds_example :
    (one_flat.ntype ≡ (new_flat gram3).ntype) × FlatHolds one_flat abc_files
add_file-FlatHolds_example =
    add_file-FlatHolds (new_flat gram3) [] abc_file (new_flat-FlatHolds gram3) (omega arith)
      abc_bytes

abbrev takes_all : List ℕ → List ℕ → Bool
takes_all written buffer = true

one_pair : length one_flat.raw_data ≡ 1
unfolding Flat.add_file Flat.add_trigrams Flat.add_trigram new_flat
one_pair = rw abc_grams refl

flat_answers_example :
    (file : List ℕ) × (r : QueryResult) × (Flat.save takes_all one_flat ≡ ok file)
    × (open_index (as_index_file file) ≡ ok one_flat.ntype)
    × (query (as_index_file file) abc_gram ≡ ok r)
    × Means r (λ a. indexed (file_at abc_files a) (gram one_flat.ntype abc_gram))
flat_answers_example =
    flat_answers takes_all (λ f b. refl) one_flat abc_files abc_gram add_file-FlatHolds_example.1
      (omega (arith, one_pair)) (omega arith)

empty_room : Flat.can_still_add (new_flat gram3) (length abc_file) 0 ≡ true
unfolding Flat.can_still_add new_flat
empty_room = refl

can_still_add-room_example : length one_flat.raw_data < max_trigrams
can_still_add-room_example =
    can_still_add-room (new_flat gram3) 0 abc_file 0 (unfold new_flat in omega arith) empty_room

abbrev two_pairs : List ℕ
two_pairs = (1 + 5 * 2 ^ 40) ∷ (0 + 3 * 2 ^ 40) ∷ []

flat_radixsort-sorted_example :
    (sorted : List ℕ) × (flat_radixsort two_pairs 1 ≡ ok sorted) × Sorts 1 two_pairs sorted
flat_radixsort-sorted_example =
    flat_radixsort-sorted 1 two_pairs (omega arith)
      ((omega arith, omega arith), ((omega arith, omega arith), tt))

-- A new builder with an index of two types.
abbrev fresh_builder : DatasetBuilder
fresh_builder = clear flat_type (gram3 ∷ text4 ∷ [])

fresh_room : can_still_add fresh_builder (length abc_file) ≡ true
unfolding can_still_add clear Flat.can_still_add new_flat
fresh_room = refl

plain_name : has_line_break (97 ∷ []) ≡ false
unfolding has_line_break
plain_name = refl

index-BuilderHolds_example :
    (b' : DatasetBuilder) × (index (λ name. ok abc_file) fresh_builder (97 ∷ []) ≡ ok b')
    × BuilderHolds b' ((97 ∷ []) ∷ []) abc_files
index-BuilderHolds_example =
    index-BuilderHolds [] abc_file (omega arith) abc_bytes (λ name. ok abc_file) fresh_builder []
      (97 ∷ []) (clear-BuilderHolds flat_type (gram3 ∷ text4 ∷ [])) refl plain_name fresh_room
