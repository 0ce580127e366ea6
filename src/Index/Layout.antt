-- ===== src/Index/Layout.antt =====
-- The layout of an index file (libursa/OnDiskIndex.cpp, libursa/FlatIndexBuilder.cpp and
-- libursa/BitmapIndexBuilder.cpp): a header, the coded runs of the ngrams in their order, and the
-- offsets of all runs, with that of the end.
use ursadb.Prelude.{
  ℕ, zero, suc, ◌+◌, ◌-◌, ◌*◌, ◌^◌, ◌≤◌, ◌<◌, ◌≡◌, refl, sym, ap, ◌∙◌, List, [], ◌∷◌, ◌++◌, arith,
  length, length-append, take, drop, drop-append, slice_lem, take_front,
}
use mathlib.Core.List.{append_assoc, append-nil}
use ursadb.Codec.Encoding.{encoding}
use ursadb.Core.{IndexType, raw, num_trigrams, db_magic}
use ursadb.Index.File.{OnDiskIndexHeader, run_array_size, index_version}
use ursadb.Index.Bytes.{
  to_bytes, of_bytes, length-to_bytes, of_bytes-to_bytes, header_bytes, read_at, as_index_file,
}

-- The coded runs of `count` ngrams from `i` on.
unfoldable pub coded : (ℕ → List ℕ) → ℕ → ℕ → List ℕ
coded run i zero = []
coded run i (suc count) = encoding 0 (run i) ++ coded run (suc i) count

-- Their offsets, where the first lies at `offset`, and the offset behind them.
unfoldable pub offsets_of : (ℕ → List ℕ) → ℕ → ℕ → ℕ → List ℕ
offsets_of run offset i zero = offset ∷ []
offsets_of run offset i (suc count) =
    offset ∷ offsets_of run (offset + length (encoding 0 (run i))) (suc i) count

-- An array of `uint64_t`.
unfoldable pub words64 : List ℕ → List ℕ
words64 [] = []
words64 (n ∷ ns) = to_bytes 8 n ++ words64 ns

unfoldable pub header_of : IndexType → OnDiskIndexHeader
header_of type = record {
  magic = db_magic;
  version = index_version;
  raw_type = raw type;
  reserved = 0;
}

-- The file of an index of `count` ngrams.
unfoldable pub layout : IndexType → (ℕ → List ℕ) → ℕ → List ℕ
layout type run count =
    header_bytes (header_of type) ++ (coded run 0 count ++ words64 (offsets_of run 16 0 count))

pub length-words64 : (ns : List ℕ) → length (words64 ns) ≡ length ns * 8
unfolding words64
length-words64 [] = omega arith
length-words64 (n ∷ ns) =
    omega (arith, length-words64 ns, length-append (to_bytes 8 n) (words64 ns), length-to_bytes 8 n)

pub length-offsets_of :
    (run : ℕ → List ℕ) (offset i count : ℕ) → length (offsets_of run offset i count) ≡ suc count
unfolding offsets_of
length-offsets_of run offset i zero = refl
length-offsets_of run offset i (suc count) =
    omega (arith, length-offsets_of run (offset + length (encoding 0 (run i))) (suc i) count)

pub length-header_bytes : (header : OnDiskIndexHeader) → length (header_bytes header) ≡ 16
unfolding header_bytes
length-header_bytes header = omega (
  arith,
  length-to_bytes 4 header.magic,
  length-to_bytes 4 header.version,
  length-to_bytes 4 header.raw_type,
  length-to_bytes 4 header.reserved,
  length-append (to_bytes 4 header.magic)
      (to_bytes 4 header.version ++ (to_bytes 4 header.raw_type ++ to_bytes 4 header.reserved)),
  length-append (to_bytes 4 header.version)
      (to_bytes 4 header.raw_type ++ to_bytes 4 header.reserved),
  length-append (to_bytes 4 header.raw_type) (to_bytes 4 header.reserved),
)

-- The offset of a run of the layout.
abbrev pub start_of : (ℕ → List ℕ) → ℕ → ℕ
start_of run i = 16 + length (coded run 0 i)

-- The runs up to `t` and those behind.
pub coded-split :
    (run : ℕ → List ℕ) (i t count : ℕ)
    → coded run i (t + count) ≡ coded run i t ++ coded run (i + t) count
unfolding coded
coded-split run i zero count =
    let e : 0 + count ≡ count = omega arith in let f : i + 0 ≡ i = omega arith in rw (e, f) refl
coded-split run i (suc t) count =
    let e : suc t + count ≡ suc (t + count) = omega arith in
    let f : i + suc t ≡ suc i + t = omega arith in
    rw (e, f)
      (ap (λ more. encoding 0 (run i) ++ more) (coded-split run (suc i) t count)
        ∙ sym
            (append_assoc (encoding 0 (run i)) (coded run (suc i) t) (coded run (suc i + t) count)))

pub coded_last :
    (run : ℕ → List ℕ) (i t : ℕ) → coded run i (suc t) ≡ coded run i t ++ encoding 0 (run (i + t))
unfolding coded
coded_last run i zero = let f : i + 0 ≡ i = omega arith in rw f (append-nil (encoding 0 (run i)))
coded_last run i (suc t) =
    let f : i + suc t ≡ suc i + t = omega arith in
    rw f (
      ap (λ more. encoding 0 (run i) ++ more) (coded_last run (suc i) t)
      ∙ sym
          (append_assoc (encoding 0 (run i)) (coded run (suc i) t) (encoding 0 (run (suc i + t)))))

pub coded-suc :
    (run : ℕ → List ℕ) (t : ℕ) → coded run 0 (suc t) ≡ coded run 0 t ++ encoding 0 (run t)
coded-suc run t = let f : 0 + t ≡ t = omega arith in rw f at (coded_last run 0 t)

drop_word :
    (n : ℕ) (ns : List ℕ) (m : ℕ)
    → drop (length (to_bytes 8 n) + m) (words64 (n ∷ ns)) ≡ drop m (words64 ns)
unfolding words64
drop_word n ns m = drop-append (to_bytes 8 n) (words64 ns) m

-- The offsets from the one of `t` on.
offsets-drop :
    (run : ℕ → List ℕ) (offset i t count : ℕ)
    → drop (t * 8) (words64 (offsets_of run offset i (t + count)))
      ≡ words64 (offsets_of run (offset + length (coded run i t)) (i + t) count)
unfolding offsets_of coded
offsets-drop run offset i zero count =
    let e : 0 + count ≡ count = omega arith in
    let f : i + 0 ≡ i = omega arith in
    let g : offset + 0 ≡ offset = omega arith in rw (e, f, g) refl
offsets-drop run offset i (suc t) count =
    let next = offset + length (encoding 0 (run i)) in
    let e : suc t + count ≡ suc (t + count) = omega arith in
    let f : i + suc t ≡ suc i + t = omega arith in
    let g : offset + length (encoding 0 (run i) ++ coded run (suc i) t)
        ≡ next + length (coded run (suc i) t) =
      omega (arith, length-append (encoding 0 (run i)) (coded run (suc i) t)) in
    let h : suc t * 8 ≡ length (to_bytes 8 offset) + t * 8 =
      omega (arith, length-to_bytes 8 offset) in
    rw (e, f, g, h)
      (drop_word offset (offsets_of run next (suc i) (t + count)) (t * 8)
        ∙ offsets-drop run next (suc i) t count)

-- The first of the offsets that are left.
first_offset :
    (run : ℕ → List ℕ) (offset i count : ℕ)
    → take 8 (words64 (offsets_of run offset i count)) ≡ to_bytes 8 offset
unfolding offsets_of words64
first_offset run offset i zero =
    take_front (to_bytes 8 offset) [] 8 (omega (arith, length-to_bytes 8 offset))
first_offset run offset i (suc count) =
    take_front (to_bytes 8 offset)
      (words64 (offsets_of run (offset + length (encoding 0 (run i))) (suc i) count)) 8
      (omega (arith, length-to_bytes 8 offset))

-- What a file of the layout says of itself, where its offsets fit into 64 bits.
module _ (type : IndexType) (run : ℕ → List ℕ) (fits : start_of run num_trigrams < 2 ^ 64) where
  abbrev file : List ℕ
  file = layout type run num_trigrams

  abbrev footer : List ℕ
  footer = words64 (offsets_of run 16 0 num_trigrams)

  length-footer : length footer ≡ run_array_size
  length-footer = omega (
    arith,
    length-words64 (offsets_of run 16 0 num_trigrams),
    length-offsets_of run 16 0 num_trigrams,
  )

  length-file : length file ≡ start_of run num_trigrams + run_array_size
  unfolding layout
  length-file = omega (
    arith,
    length-header_bytes (header_of type),
    length-append (coded run 0 num_trigrams) footer,
    length-append (header_bytes (header_of type)) (coded run 0 num_trigrams ++ footer),
    length-footer,
  )

  pub index_size-layout :
      (as_index_file file).index_size ≡ start_of run num_trigrams + run_array_size
  unfolding as_index_file
  index_size-layout = length-file

  pub start_grows : (t count : ℕ) → start_of run t ≤ start_of run (t + count)
  start_grows t count =
      let e : 0 + t ≡ t = omega arith in
      omega (
        arith,
        ap length (coded-split run 0 t count),
        length-append (coded run 0 t) (coded run (0 + t) count),
      )

  footer_at : (t : ℕ) → t ≤ num_trigrams → of_bytes (take 8 (drop (t * 8) footer)) ≡ start_of run t
  footer_at t le =
      let count = num_trigrams - t in
      let e : num_trigrams ≡ t + count = omega arith in
      let small : start_of run t < 256 ^ 8 =
        omega (arith, start_grows t count, ap (λ n. length (coded run 0 n)) e) in
      ap (λ n. of_bytes (take 8 (drop (t * 8) (words64 (offsets_of run 16 0 n))))) e
      ∙ ap (λ bs. of_bytes (take 8 bs)) (offsets-drop run 16 0 t count)
      ∙ ap of_bytes (first_offset run (start_of run t) (0 + t) count)
      ∙ of_bytes-to_bytes 8 (start_of run t) small

  -- The array of offsets, as it is read.
  pub run_array-layout :
      (t : ℕ) → t ≤ num_trigrams → (as_index_file file).run_array t ≡ start_of run t
  unfolding as_index_file read_at
  run_array-layout t le =
      let front = header_bytes (header_of type) ++ coded run 0 num_trigrams in
      let e : length file - run_array_size + t * 8 ≡ length front + t * 8 = omega (
        arith,
        length-file,
        length-header_bytes (header_of type),
        length-append (header_bytes (header_of type)) (coded run 0 num_trigrams),
      ) in
      let f : file ≡ front ++ footer =
        unfold layout in
        sym (append_assoc (header_bytes (header_of type)) (coded run 0 num_trigrams) footer) in
      ap (λ at. of_bytes (take 8 (drop at file))) e
      ∙ ap (λ bs. of_bytes (take 8 (drop (length front + t * 8) bs))) f
      ∙ ap (λ bs. of_bytes (take 8 bs)) (drop-append front footer (t * 8))
      ∙ footer_at t le

  -- The bytes of a run, as they are read.
  pub pread-layout :
      (t count : ℕ)
      → t + count ≤ num_trigrams
      → (as_index_file file).pread (start_of run (t + count) - start_of run t) (start_of run t)
        ≡ coded run t count
  unfolding as_index_file read_at
  pread-layout t count le =
      let rest = num_trigrams - (t + count) in
      let front = header_bytes (header_of type) ++ coded run 0 t in
      let back = coded run (t + count) rest ++ footer in
      let z : 0 + t ≡ t = omega arith in
      let e : num_trigrams ≡ t + (count + rest) = omega arith in
      let before : coded run 0 (t + count) ≡ coded run 0 t ++ coded run t count =
        coded-split run 0 t count ∙ ap (λ n. coded run 0 t ++ coded run n count) z in
      let inner : coded run 0 num_trigrams
          ≡ coded run 0 t ++ (coded run t count ++ coded run (t + count) rest) =
        ap (λ n. coded run 0 n) e
        ∙ coded-split run 0 t (count + rest)
        ∙ ap (λ n. coded run 0 t ++ coded run n (count + rest)) z
        ∙ ap (λ more. coded run 0 t ++ more) (coded-split run t count rest) in
      let whole : file ≡ front ++ (coded run t count ++ back) =
        unfold layout in
        ap (λ mid. header_bytes (header_of type) ++ (mid ++ footer)) inner ∙ simp append_assoc in
      ap (λ bs. take (start_of run (t + count) - start_of run t) (drop (start_of run t) bs)) whole
      ∙ slice_lem front (coded run t count) back _ _
          (omega (
            arith,
            length-header_bytes (header_of type),
            length-append (header_bytes (header_of type)) (coded run 0 t),
          ))
          (omega (arith, ap length before, length-append (coded run 0 t) (coded run t count)))
