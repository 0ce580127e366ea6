-- ===== src/Builder/FlatAnswers.antt =====
-- The index that `FlatIndexBuilder` (libursa/FlatIndexBuilder.cpp) saves answers for its files.
use ursadb.Prelude.{
  ℕ, zero, suc, ◌+◌, ◌-◌, ◌*◌, ◌^◌, ◌≤◌, ◌<◌, ◌≡◌, refl, sym, ap, ◌∙◌, Bool, true, false, List, [],
  ◌∷◌, ◌++◌, ◌==◌, arith, length, length-append, All, elem, IsRun, IsU32, ok, ◌>>=◌, Bool-cases,
  inl, inr, ltb,
}
use mathlib.Core.List.{append-nil}
use ursadb.Core.{num_trigrams}
use ursadb.Codec.Encoding.{encoding}
use ursadb.Codec.Posix.{new_posix, written}
use ursadb.Query.Occurs.{indexed}
use ursadb.QueryResult.Ops.{QueryResult}
use ursadb.QueryResult.Sets.{Means}
use ursadb.Index.File.{open_index, query}
use ursadb.Index.Bytes.{header_bytes, as_index_file}
use ursadb.Index.Layout.{coded, offsets_of, layout, header_of, words64, start_of}
use ursadb.Index.Files.{file_at, gram, HoldsFiles, layout-answers, file_at-behind, indexed-none}
use ursadb.Builder.Size.{length-encoding}
use ursadb.Builder.Sorted.{IsPacked, flat_radixsort-sorted}
use ursadb.Builder.Flat.{
  FlatIndexBuilder, max_trigrams, pack, val_of, unique, SaveState, save_loop, save_end, save,
}
use ursadb.Builder.FlatRuns.{
  IsPair, run_of, run_of-here, run_of-away, run_of-IsRunFrom, elem-run_of, unique-IsRun,
  elem-unique, length-unique,
}
use ursadb.Builder.FlatSave.{Continues, save_loop-saved}
use ursadb.Builder.FlatFiles.{FlatHolds}

-- The number of ids in the runs of `count` ngrams from `i` on.
ids_in : List ℕ → ℕ → ℕ → ℕ
ids_in ds i zero = 0
ids_in ds i (suc count) = length (run_of ds i) + ids_in ds (suc i) count

ids_in-none : (i count : ℕ) → ids_in [] i count ≡ 0
unfolding ids_in run_of
ids_in-none i zero = refl
ids_in-none i (suc count) = omega (arith, ids_in-none (suc i) count)

ids_in-before :
    (d : ℕ) (ds : List ℕ) (i count : ℕ) → val_of d < i → ids_in (d ∷ ds) i count ≡ ids_in ds i count
unfolding ids_in
ids_in-before d ds i zero h = refl
ids_in-before d ds i (suc count) h =
    let other : (val_of d == i) ≡ false = ground arith in
    rw (run_of-away d i ds other, ids_in-before d ds (suc i) count (omega arith)) refl

ids_in-cons :
    (d : ℕ) (ds : List ℕ) (i count : ℕ) → ids_in (d ∷ ds) i count ≤ suc (ids_in ds i count)
unfolding ids_in
ids_in-cons d ds i zero = omega arith
ids_in-cons d ds i (suc count) = elim (Bool-cases (val_of d == i)) [
  | inl same ↦
      omega (
        arith,
        ap length (run_of-here d i ds same),
        ids_in-before d ds (suc i) count (ground arith),
      )
  | inr other ↦ omega (arith, ap length (run_of-away d i ds other), ids_in-cons d ds (suc i) count)
]

ids_in-le : (ds : List ℕ) (i count : ℕ) → ids_in ds i count ≤ length ds
ids_in-le [] i count = omega (arith, ids_in-none i count)
ids_in-le (d ∷ ds) i count = omega (arith, ids_in-cons d ds i count, ids_in-le ds i count)

-- Five bytes at most for each pair.
length-coded-run_of :
    (ds : List ℕ) (i count : ℕ)
    → ((t : ℕ) → All IsU32 (run_of ds t))
    → length (coded (run_of ds) i count) ≤ 5 * ids_in ds i count
unfolding coded ids_in
length-coded-run_of ds i zero h = omega arith
length-coded-run_of ds i (suc count) h = omega (
  arith,
  length-encoding 0 (run_of ds i) (h i),
  length-coded-run_of ds (suc i) count h,
  length-append (encoding 0 (run_of ds i)) (coded (run_of ds) (suc i) count),
)

IsPacked-IsPair : (m : ℕ) (xs : List ℕ) → m < 2 ^ 32 → All (IsPacked m) xs → All IsPair xs
IsPacked-IsPair m [] small h = tt
IsPacked-IsPair m (x ∷ xs) small h = ((h.0.0, omega (arith, h.0.1)), IsPacked-IsPair m xs small h.1)

elem-small : (a : ℕ) (xs : List ℕ) → All IsU32 xs → 2 ^ 32 ≤ a → elem a xs ≡ false
elem-small a [] h le = refl
elem-small a (x ∷ xs) h le = ground (arith, elem-small a xs h.1)

-- The first of the runs and of their offsets.
coded_first :
    (run : ℕ → List ℕ) (count left : ℕ)
    → count ≡ suc left
    → coded run 0 count ≡ encoding 0 (run 0) ++ coded run 1 left
coded_first run count left e = ap (coded run 0) e ∙ unfold coded in refl

offsets_first :
    (run : ℕ → List ℕ) (offset count left : ℕ)
    → count ≡ suc left
    → offsets_of run offset 0 count
      ≡ offset ∷ offsets_of run (offset + length (encoding 0 (run 0))) 1 left
offsets_first run offset count left e = ap (offsets_of run offset 0) e ∙ unfold offsets_of in refl

module _ (accepts : List ℕ → List ℕ → Bool)
    (accepts_all : (f b : List ℕ) → accepts f b ≡ true) where
  -- Sorted pairs without repetitions are written as the runs of the ngrams.
  save_sorted :
      (header ds : List ℕ)
      → IsRun ds
      → All IsPair ds
      → length ds ≤ max_trigrams
      → (save_loop accepts
            (record { writer = new_posix header; offset = 16; offsets = 16 ∷ []; last_trigram = 0 })
            ds
          >>= λ s. save_end accepts s)
        ≡ ok (
            header
            ++ (coded (run_of ds) 0 num_trigrams
                ++ words64 (offsets_of (run_of ds) 16 0 num_trigrams)))
  save_sorted header ds run pairs few =
      let s : SaveState = record {
        writer = new_posix header;
        offset = 16;
        offsets = 16 ∷ [];
        last_trigram = 0;
      } in
      let small : (t : ℕ) → All IsU32 (run_of ds t) =
        λ t. (run_of-IsRunFrom t 0 0 ds (inr refl) run pairs).1 in
      let sum = length-append (encoding 0 (run_of ds 0)) (coded (run_of ds) 1 left) in
      let bytes = ap length (coded_first (run_of ds) num_trigrams left refl) in
      let ready : Continues accepts accepts_all s ds 0 = record {
        before = unfold new_posix in omega arith;
        below = omega arith;
        fits = omega (
          arith,
          none_out,
          sum,
          bytes,
          length-coded-run_of ds 0 num_trigrams small,
          ids_in-le ds 0 num_trigrams,
        );
      } in
      save_loop-saved accepts accepts_all ds s 0 run pairs ready
      ∙ rw
          (
            file,
            none_out,
            z,
            coded_first (run_of ds) num_trigrams left refl,
            offsets_first (run_of ds) 16 num_trigrams left refl,
          )
          refl
    where
      left : ℕ
      left = num_trigrams - suc 0

      z : 16 + 0 ≡ 16
      z = refl

      file : written (new_posix header) ≡ header
      file = unfold written new_posix in append-nil header

      none_out : (new_posix header).out_bytes ≡ 0
      none_out = unfold new_posix in refl

  -- The ids of the runs are those of the files that have the ngram.
  runs-HoldsFiles :
      (b : FlatIndexBuilder) (files : List (List ℕ)) (ds : List ℕ)
      → FlatHolds b files
      → All IsPair ds
      → ((t : ℕ) → All IsU32 (run_of ds t))
      → ((d : ℕ) → elem d ds ≡ elem d b.raw_data)
      → HoldsFiles b.ntype (run_of ds) files
  runs-HoldsFiles b files ds h pairs small members t a below = elim (Bool-cases (ltb a (2 ^ 40))) [
    | inl inside ↦
        elem-run_of t a ds below (ground arith) pairs
        ∙ members (pack a t)
        ∙ h.holds t a below (ground arith)
    | inr outside ↦
        let n = a - length files in
        let e : a ≡ length files + n = ground (arith, h.few) in
        let behind : file_at files a ≡ [] = ap (file_at files) e ∙ file_at-behind files n in
        elem-small a (run_of ds t) (small t) (ground arith)
        ∙ sym (ap (λ mem. indexed mem (gram b.ntype t)) behind ∙ indexed-none (gram b.ntype t))
  ]

  -- Where the system call takes every buffer, a builder that holds some files and no more than
  -- MAX_TRIGRAMS pairs is saved to an index that can be opened, and answers every query with the files
  -- that have the ngram.
  pub flat_answers :
      (b : FlatIndexBuilder) (files : List (List ℕ)) (t : ℕ)
      → FlatHolds b files
      → length b.raw_data ≤ max_trigrams
      → t < num_trigrams
      → (file : List ℕ) × (r : QueryResult) × (save accepts b ≡ ok file)
        × (open_index (as_index_file file) ≡ ok b.ntype)
        × (query (as_index_file file) t ≡ ok r)
        × Means r (λ a. indexed (file_at files a) (gram b.ntype t))
  unfolding save
  flat_answers b files t h few below =
      let (sorted, ran, (order, members, size, packed)) =
        flat_radixsort-sorted b.max_fileid b.raw_data h.ids h.packed in
      let ds = unique sorted in
      let (run, pairs) =
        unique-IsRun sorted order (IsPacked-IsPair b.max_fileid sorted h.ids packed) in
      let shorter : length ds ≤ max_trigrams = omega (arith, length-unique sorted, size) in
      let runs : (u : ℕ) → IsRun (run_of ds u) × All IsU32 (run_of ds u) =
        λ u. run_of-IsRunFrom u 0 0 ds (inr refl) run pairs in
      let small : (u : ℕ) → All IsU32 (run_of ds u) = λ u. (runs u).1 in
      let fits : start_of (run_of ds) num_trigrams < 2 ^ 64 =
        omega (arith, length-coded-run_of ds 0 num_trigrams small, ids_in-le ds 0 num_trigrams) in
      let holds =
        runs-HoldsFiles b files ds h pairs small (λ d. elem-unique d sorted ∙ members d) in
      let (r, opened, answered, means) =
        layout-answers b.ntype (run_of ds) files t fits holds below (runs t).0 (small t) in
      (
        layout b.ntype (run_of ds) num_trigrams,
        r,
        rw ran (
            save_sorted (header_bytes (header_of b.ntype)) ds run pairs shorter
            ∙ unfold layout in refl),
        opened,
        answered,
        means,
      )
