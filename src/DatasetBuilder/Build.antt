-- ===== src/DatasetBuilder/Build.antt =====
-- The class `DatasetBuilder` (libursa/DatasetBuilder.cpp). `read` is the contents of a file, or what
-- `MemMap` throws. Saving is left out.
use ursadb.Prelude.{
  ℕ, Bool, true, false, not, ◌&&◌, ◌||◌, List, [], ◌∷◌, ◌++◌, length, ◌==◌, u32, Result, ok, guard,
  ◌>>=◌, ◌>>◌, invalid_file_name,
}
use ursadb.Core.{IndexType}
use ursadb.Builder.Bitmap.{BitmapIndexBuilder, new_bitmap}
use ursadb.Builder.Bitmap as Bitmap
use ursadb.Builder.Flat.{FlatIndexBuilder, new_flat}
use ursadb.Builder.Flat as Flat

pub data BuilderType : Type 0 where
  flat_type bitmap_type : BuilderType

pub data IndexBuilder : Type 0 where
  flat : FlatIndexBuilder → IndexBuilder
  bitmap : BitmapIndexBuilder → IndexBuilder

pub record DatasetBuilder : Type 0 where
  pub indices : List IndexBuilder
  pub fids : List (List ℕ)

unfoldable pub has_line_break : List ℕ → Bool
has_line_break [] = false
has_line_break (c ∷ fname) = (c == 10 || c == 13) || has_line_break fname

-- The id and the builder.
unfoldable pub register_fname : DatasetBuilder → List ℕ → Result (ℕ × DatasetBuilder)
unfolding has_line_break
register_fname b fname = do
  guard (not (has_line_break fname)) invalid_file_name
  ok (u32 (length b.fids), record b { fids = b.fids ++ fname ∷ [] })

unfoldable pub add_file : IndexBuilder → ℕ → List ℕ → Result IndexBuilder
add_file (flat b) fid mem = ok (flat (Flat.add_file b fid mem))
add_file (bitmap b) fid mem = Bitmap.add_file b fid mem >>= λ b'. ok (bitmap b')

unfoldable pub add_to_all : List IndexBuilder → ℕ → List ℕ → Result (List IndexBuilder)
unfolding add_file
add_to_all [] fid mem = ok []
add_to_all (ndx ∷ indices) fid mem =
    add_file ndx fid mem >>= λ ndx'. add_to_all indices fid mem >>= λ rest. ok (ndx' ∷ rest)

unfoldable pub index : (List ℕ → Result (List ℕ)) → DatasetBuilder → List ℕ → Result DatasetBuilder
unfolding register_fname add_to_all
index read b filepath = do
  guard (not (has_line_break filepath)) invalid_file_name
  mem ← read filepath
  (fid, b') ← register_fname b filepath
  indices ← add_to_all b'.indices fid mem
  ok (record b' { indices = indices })

unfoldable pub builder_can_still_add : IndexBuilder → ℕ → ℕ → Bool
builder_can_still_add (flat b) bytes fcount = Flat.can_still_add b bytes fcount
builder_can_still_add (bitmap b) bytes fcount = Bitmap.can_still_add b bytes fcount

unfoldable pub all_can_still_add : List IndexBuilder → ℕ → ℕ → Bool
unfolding builder_can_still_add
all_can_still_add [] bytes fcount = true
all_can_still_add (ndx ∷ indices) bytes fcount =
    builder_can_still_add ndx bytes fcount && all_can_still_add indices bytes fcount

-- The count goes to the builders as it is: below 2 ^ 31, narrowing it to `int` keeps it.
unfoldable pub can_still_add : DatasetBuilder → ℕ → Bool
unfolding all_can_still_add
can_still_add b bytes = all_can_still_add b.indices bytes (length b.fids)

unfoldable pub new_indices : BuilderType → List IndexType → List IndexBuilder
new_indices builder_type [] = []
new_indices flat_type (type ∷ types) = flat (new_flat type) ∷ new_indices flat_type types
new_indices bitmap_type (type ∷ types) = bitmap (new_bitmap type) ∷ new_indices bitmap_type types

unfoldable pub clear : BuilderType → List IndexType → DatasetBuilder
unfolding new_indices
clear builder_type types = record { indices = new_indices builder_type types; fids = [] }
