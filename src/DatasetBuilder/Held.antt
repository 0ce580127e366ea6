-- ===== src/DatasetBuilder/Held.antt =====
-- A `DatasetBuilder` (libursa/DatasetBuilder.cpp) holds the files that it indexes.
use ursadb.Prelude.{
  ℕ, ◌^◌, ◌<◌, ◌≡◌, refl, sym, ap, ◌∙◌, true, false, List, [], ◌∷◌, ◌++◌, arith, length,
  length-append, u32, All, Result, ok, inl, inr,
}
use ursadb.Builder.Bitmap.{BitmapIndexBuilder, max_files}
use ursadb.Builder.Bitmap as Bitmap
use ursadb.Builder.BitmapAnswers.{BitmapHolds, new_bitmap-Holds, add_file-BitmapHolds}
use ursadb.Builder.Flat as Flat
use ursadb.Builder.FlatFiles.{FlatHolds, new_flat-FlatHolds, add_file-FlatHolds}
use ursadb.Codec.Encoding.{IsByte}
use ursadb.Core.{IndexType}
use ursadb.DatasetBuilder.Build.{
  BuilderType, flat_type, bitmap_type, IndexBuilder, flat, bitmap, DatasetBuilder, has_line_break,
  register_fname, add_file, add_to_all, index, builder_can_still_add, all_can_still_add,
  can_still_add, new_indices, clear,
}

abbrev pub HoldsAll : List (List ℕ) → IndexBuilder → Type 0
HoldsAll files (flat b) = FlatHolds b files
HoldsAll files (bitmap b) = BitmapHolds b files

pub record BuilderHolds (b : DatasetBuilder) (names files : List (List ℕ)) : Type 0 where
  pub named : b.fids ≡ names
  pub paired : length names ≡ length files
  pub held : All (HoldsAll files) b.indices

new_indices-HoldsAll :
    (builder_type : BuilderType) (types : List IndexType)
    → All (HoldsAll []) (new_indices builder_type types)
unfolding new_indices
new_indices-HoldsAll builder_type [] = tt
new_indices-HoldsAll flat_type (type ∷ types) =
    (new_flat-FlatHolds type, new_indices-HoldsAll flat_type types)
new_indices-HoldsAll bitmap_type (type ∷ types) =
    (new_bitmap-Holds type, new_indices-HoldsAll bitmap_type types)

pub clear-BuilderHolds :
    (builder_type : BuilderType) (types : List IndexType)
    → BuilderHolds (clear builder_type types) [] []
unfolding clear
clear-BuilderHolds builder_type types = record {
  named = refl;
  paired = refl;
  held = new_indices-HoldsAll builder_type types;
}

bitmap_room :
    (b : BitmapIndexBuilder) (bytes file_count : ℕ)
    → Bitmap.can_still_add b bytes file_count ≡ true
    → file_count < max_files
unfolding Bitmap.can_still_add
bitmap_room b bytes file_count room = ground (arith, room)

module _ (files : List (List ℕ)) (mem : List ℕ) (few : length files < 2 ^ 32)
    (bytes : All IsByte mem) where
  add_file-HoldsAll :
      (ndx : IndexBuilder)
      → HoldsAll files ndx
      → builder_can_still_add ndx (length mem) (length files) ≡ true
      → (ndx' : IndexBuilder) × (add_file ndx (length files) mem ≡ ok ndx')
        × HoldsAll (files ++ mem ∷ []) ndx'
  unfolding add_file builder_can_still_add
  add_file-HoldsAll (flat b) h room = (
    flat (Flat.add_file b (length files) mem),
    refl,
    (add_file-FlatHolds b files mem h few bytes).1,
  )
  add_file-HoldsAll (bitmap b) h room =
      let below = bitmap_room b (length mem) (length files) room in
      elim (add_file-BitmapHolds b files mem h) [
        | inl (full, e) ↦ absurd (omega (arith, full, below))
        | inr (b', e, same, held) ↦ (bitmap b', rw e refl, held)
      ]

  add_to_all-HoldsAll :
      (indices : List IndexBuilder)
      → All (HoldsAll files) indices
      → all_can_still_add indices (length mem) (length files) ≡ true
      → (indices' : List IndexBuilder) × (add_to_all indices (length files) mem ≡ ok indices')
        × All (HoldsAll (files ++ mem ∷ [])) indices'
  unfolding add_to_all all_can_still_add
  add_to_all-HoldsAll [] h room = ([], refl, tt)
  add_to_all-HoldsAll (ndx ∷ indices) h room =
      let here : builder_can_still_add ndx (length mem) (length files) ≡ true =
        ground (arith, room) in
      let there : all_can_still_add indices (length mem) (length files) ≡ true =
        ground (arith, room) in
      let (ndx', e, held) = add_file-HoldsAll ndx h.0 here in
      let (indices', f, more) = add_to_all-HoldsAll indices h.1 there in
      (ndx' ∷ indices', rw (e, f) refl, (held, more))

  -- Indexing a file of bytes, whose name has no line break, in a builder that holds the files before
  -- it, fewer than 2 ^ 32, and that can still add it, ends without an exception, and the builder holds
  -- the file too, in all its indexes.
  pub index-BuilderHolds :
      (read : List ℕ → Result (List ℕ)) (b : DatasetBuilder) (names : List (List ℕ)) (name : List ℕ)
      → BuilderHolds b names files
      → read name ≡ ok mem
      → has_line_break name ≡ false
      → can_still_add b (length mem) ≡ true
      → (b' : DatasetBuilder) × (index read b name ≡ ok b')
        × BuilderHolds b' (names ++ name ∷ []) (files ++ mem ∷ [])
  unfolding index register_fname can_still_add
  index-BuilderHolds read b names name h e plain room =
      let count : length b.fids ≡ length files = ap length h.named ∙ h.paired in
      let fid : u32 (length b.fids) ≡ length files = omega (arith, count, few) in
      let (indices, added, held) =
        add_to_all-HoldsAll b.indices h.held
          (ap (all_can_still_add b.indices (length mem)) (sym count) ∙ room) in
      (
        record { indices = indices; fids = b.fids ++ name ∷ [] },
        rw (plain, e, fid, added) refl,
        record {
          named = ap (λ ns. ns ++ name ∷ []) h.named;
          paired =
              omega
                (arith, h.paired, length-append names (name ∷ []), length-append files (mem ∷ []));
          held = held;
        },
      )
