-- ===== src/Index/Built.antt =====
-- A file with the layout of an index is opened by `OnDiskIndex` (libursa/OnDiskIndex.cpp) as an index
-- of its type, and answers with the runs that are laid out.
use ursadb.Prelude.{
  ℕ, ltb, true, false, length-append, [], ◌+◌, ◌-◌, ◌^◌, ◌≤◌, ◌<◌, ◌≡◌, refl, sym, ap, ◌∙◌, List,
  ◌++◌, arith, length, elem, ok, All, IsRun, IsU32, slice_lem,
}
use mathlib.Core.List.{append_assoc, append-nil}
use ursadb.Codec.Encoding.{encoding}
use ursadb.Core.{IndexType, raw, num_trigrams, is_valid_index_type, gram3, text4, hash4, wide8}
use ursadb.QueryResult.Ops.{QueryResult}
use ursadb.QueryResult.Sets.{Means}
use ursadb.Index.File.{OnDiskIndexHeader, data_offset, run_array_size, open_index, query, cast_type}
use ursadb.Index.Bytes.{
  to_bytes, of_bytes, length-to_bytes, of_bytes-to_bytes, header_bytes, read_at, as_index_file,
}
use ursadb.Index.Layout.{
  coded, header_of, layout, start_of, start_grows, index_size-layout, run_array-layout,
  pread-layout,
}
use ursadb.Index.Answers.{query-Means}

-- A header is read back.
module _ (h : OnDiskIndexHeader) (rest : List ℕ) (magic : h.magic < 2 ^ 32)
    (version : h.version < 2 ^ 32) (raw_type : h.raw_type < 2 ^ 32)
    (reserved : h.reserved < 2 ^ 32) where
  abbrev fields : List ℕ
  fields = header_bytes h ++ rest

  -- A field of four bytes behind the ones before it.
  field_at :
      (front part back : List ℕ) (n at : ℕ)
      → at ≡ length front
      → part ≡ to_bytes 4 n
      → n < 2 ^ 32
      → of_bytes (read_at (front ++ (part ++ back)) 4 at) ≡ n
  unfolding read_at
  field_at front part back n at e f small =
      ap of_bytes (slice_lem front part back 4 at e (sym (ap length f ∙ length-to_bytes 4 n)) ∙ f)
      ∙ of_bytes-to_bytes 4 n (omega arith)

  pub header-fields : (as_index_file fields).header ≡ h
  unfolding as_index_file header_bytes
  header-fields =
      let m = to_bytes 4 h.magic in
      let v = to_bytes 4 h.version in
      let t = to_bytes 4 h.raw_type in
      let r = to_bytes 4 h.reserved in
      let lm = length-to_bytes 4 h.magic in
      let lv = length-to_bytes 4 h.version in
      let lt = length-to_bytes 4 h.raw_type in
      let at0 = field_at [] m ((v ++ (t ++ r)) ++ rest) h.magic 0 refl refl magic in
      let at4 = field_at m v ((t ++ r) ++ rest) h.version 4 (sym lm) refl version in
      let at8 =
        field_at (m ++ v) t (r ++ rest) h.raw_type 8 (omega (arith, lm, lv, length-append m v)) refl
          raw_type in
      let at12 =
        field_at (m ++ (v ++ t)) r rest h.reserved 12
          (omega (arith, lm, lv, lt, length-append v t, length-append m (v ++ t))) refl reserved in
      let e0 : (m ++ (v ++ (t ++ r))) ++ rest ≡ m ++ ((v ++ (t ++ r)) ++ rest) =
        append_assoc m (v ++ (t ++ r)) rest in
      let e4 : (m ++ (v ++ (t ++ r))) ++ rest ≡ m ++ (v ++ ((t ++ r) ++ rest)) =
        simp append_assoc in
      let e8 : (m ++ (v ++ (t ++ r))) ++ rest ≡ (m ++ v) ++ (t ++ (r ++ rest)) =
        simp append_assoc in
      let e12 : (m ++ (v ++ (t ++ r))) ++ rest ≡ (m ++ (v ++ t)) ++ (r ++ rest) =
        simp append_assoc in
      λ i. record {
        magic = (ap (λ bs. of_bytes (read_at bs 4 0)) e0 ∙ at0) i;
        version = (ap (λ bs. of_bytes (read_at bs 4 4)) e4 ∙ at4) i;
        raw_type = (ap (λ bs. of_bytes (read_at bs 4 8)) e8 ∙ at8) i;
        reserved = (ap (λ bs. of_bytes (read_at bs 4 12)) e12 ∙ at12) i;
      }

raw-small : (type : IndexType) → raw type < 2 ^ 32
unfolding raw
raw-small gram3 = omega arith
raw-small text4 = omega arith
raw-small hash4 = omega arith
raw-small wide8 = omega arith

cast_type-of_raw : (type : IndexType) → cast_type (raw type) ≡ type
unfolding raw cast_type
cast_type-of_raw gram3 = refl
cast_type-of_raw text4 = refl
cast_type-of_raw hash4 = refl
cast_type-of_raw wide8 = refl

raw-valid : (type : IndexType) → is_valid_index_type (raw type) ≡ true
unfolding raw is_valid_index_type
raw-valid gram3 = refl
raw-valid text4 = refl
raw-valid hash4 = refl
raw-valid wide8 = refl

module _ (type : IndexType) (run : ℕ → List ℕ) (fits : start_of run num_trigrams < 2 ^ 64) where
  header-layout : (as_index_file (layout type run num_trigrams)).header ≡ header_of type
  unfolding layout header_of
  header-layout =
      header-fields (header_of type) _ (omega arith) (omega arith) (raw-small type) (omega arith)

  -- The file is opened, with its type.
  pub open_index-layout : open_index (as_index_file (layout type run num_trigrams)) ≡ ok type
  unfolding open_index header_of
  open_index-layout =
      let size = index_size-layout type run fits in
      let opened : ltb (as_index_file (layout type run num_trigrams)).index_size
            (data_offset + run_array_size)
          ≡ false =
        ground (arith, size) in
      rw (header-layout, opened, raw-valid type, cast_type-of_raw type) refl

  -- A query for an ngram gives the files of its run.
  pub query-layout :
      (t : ℕ)
      → t < num_trigrams
      → IsRun (run t)
      → All IsU32 (run t)
      → (r : QueryResult) × (query (as_index_file (layout type run num_trigrams)) t ≡ ok r)
        × Means r (λ a. elem a (run t))
  query-layout t below is_run small =
      let f = as_index_file (layout type run num_trigrams) in
      let here = run_array-layout type run fits t (omega arith) in
      let next = run_array-layout type run fits (t + 1) (omega arith) in
      let one : coded run t 1 ≡ encoding 0 (run t) =
        unfold coded in append-nil (encoding 0 (run t)) in
      let whole : t + 1 + (num_trigrams - (t + 1)) ≡ num_trigrams = omega arith in
      let inside : start_of run (t + 1) ≤ f.index_size = omega (
        arith,
        index_size-layout type run fits,
        ap (λ n. start_of run n) whole,
        start_grows type run fits (t + 1) (num_trigrams - (t + 1)),
      ) in
      query-Means f t (run t) (rw (here, next) (start_grows type run fits t 1)) (rw next inside)
        (rw (here, next) (pread-layout type run fits t 1 (omega arith) ∙ one)) is_run small
