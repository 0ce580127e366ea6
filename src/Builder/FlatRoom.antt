-- ===== src/Builder/FlatRoom.antt =====
-- How many pairs `FlatIndexBuilder` (libursa/FlatIndexBuilder.cpp) takes in.
use ursadb.Prelude.{ℕ, ◌+◌, ◌^◌, ◌<◌, ◌≡◌, true, List, [], ◌∷◌, arith, length, length-append}
use Prim.Native.Nat.{max}
use ursadb.Ngram.Generators.{get_generator_for}
use ursadb.Ngram.Count.{get_generator_for-count}
use ursadb.Builder.Flat.{
  FlatIndexBuilder, max_trigrams, pack, add_trigram, add_trigrams, add_file, can_still_add,
}

length-add_trigrams :
    (vals : List ℕ) (b : FlatIndexBuilder) (fid : ℕ)
    → length (add_trigrams b fid vals).raw_data ≡ length b.raw_data + length vals
unfolding add_trigrams add_trigram
length-add_trigrams [] b fid = omega arith
length-add_trigrams (val ∷ vals) b fid = omega (
  arith,
  length-add_trigrams vals (add_trigram b fid val) fid,
  length-append b.raw_data (pack fid val ∷ []),
)

-- A builder that can still add a file, by the size of the file, has less than MAX_TRIGRAMS pairs
-- behind it, where its pairs and the bytes of the file together are below 2 ^ 64.
pub can_still_add-room :
    (b : FlatIndexBuilder) (fid : ℕ) (mem : List ℕ) (file_count : ℕ)
    → length b.raw_data + length mem < 2 ^ 64
    → can_still_add b (length mem) file_count ≡ true
    → length (add_file b fid mem).raw_data < max_trigrams
unfolding can_still_add add_file
can_still_add-room b fid mem file_count small room =
    let grams = get_generator_for b.ntype mem in
    let count = get_generator_for-count b.ntype mem in
    let added = length-add_trigrams grams (record b { max_fileid = max fid b.max_fileid }) fid in
    ground (arith, count, added)
