-- ===== src/Index/Merged.antt =====
-- What a merge of indexes (libursa/OnDiskIndex.cpp) is to give: the runs of the indexes one behind
-- the other, the ids of each moved up by the number of the files before.
use ursadb.Prelude.{
  ℕ, suc, ◌+◌, ◌-◌, ◌^◌, ◌≤◌, ◌<◌, ◌≡◌, refl, sym, ap, ◌∙◌, List, [], ◌∷◌, ◌++◌, map, arith, length,
  length-append, All, IsRun, IsU32, take, drop, slice_lem, u64,
}
use mathlib.Core.List.{append_assoc}
use ursadb.Codec.Encoding.{encoding, last_of}
use ursadb.Codec.Bytes.{put_diff}
use ursadb.Codec.RoundTrip.{IsBefore}
use ursadb.Core.{IndexType, num_trigrams}
use ursadb.Index.Bytes.{as_index_file}
use ursadb.Index.Batch.{IndexMergeHelper, run_size}
use ursadb.Index.Layout.{
  coded, coded-split, coded_last, layout, start_of, start_grows, pread-layout,
}
use ursadb.Index.Files.{HoldsFiles}

-- An index of a merge, the runs that are laid out in it, and the files of its dataset.
pub record Source : Type 0 where
  pub helper : IndexMergeHelper
  pub run : ℕ → List ℕ
  pub files : List (List ℕ)

abbrev pub helpers : List Source → List IndexMergeHelper
helpers [] = []
helpers (s ∷ sources) = s.helper ∷ helpers sources

-- The ids of the index are those of its files.
pub record IsSource (type : IndexType) (s : Source) : Type 0 where
  pub file : s.helper.index.ndxfile ≡ as_index_file (layout type s.run num_trigrams)
  pub typed : s.helper.index.ntype ≡ type
  pub offsets : (t : ℕ) → t ≤ num_trigrams → s.helper.run_offset_cache t ≡ start_of s.run t
  pub fits : start_of s.run num_trigrams < 2 ^ 64
  pub runs : (t : ℕ) → IsRun (s.run t)
  pub ids : (t : ℕ) → All (λ a. a < s.helper.file_count) (s.run t)
  pub counted : length s.files ≡ s.helper.file_count
  pub holds : HoldsFiles type s.run s.files

-- The merged runs, where the first index starts with the id `base_files`.
unfoldable pub merged : ℕ → List Source → ℕ → List ℕ
merged base_files [] t = []
merged base_files (s ∷ sources) t =
    map (λ a. base_files + a) (s.run t) ++ merged (base_files + s.helper.file_count) sources t

abbrev pub file_total : List Source → ℕ
file_total [] = 0
file_total (s ∷ sources) = s.helper.file_count + file_total sources

-- The least id that may follow a run.
abbrev pub next_of : ℕ → List ℕ → ℕ
next_of base [] = base
next_of base (x ∷ xs) = next_of (suc x) xs

pub encoding-append :
    (base : ℕ) (xs ys : List ℕ)
    → encoding base (xs ++ ys) ≡ encoding base xs ++ encoding (next_of base xs) ys
unfolding encoding
encoding-append base [] ys = refl
encoding-append base (x ∷ xs) ys =
    ap (λ more. put_diff (x - base) ++ more) (encoding-append (suc x) xs ys)
    ∙ sym (
        append_assoc (put_diff (x - base)) (encoding (suc x) xs) (encoding (next_of (suc x) xs) ys))

pub last_of-append : (p : ℕ) (xs ys : List ℕ) → last_of p (xs ++ ys) ≡ last_of (last_of p xs) ys
last_of-append p [] ys = refl
last_of-append p (x ∷ xs) ys = last_of-append x xs ys

pub IsBefore-last :
    (prev base : ℕ) (xs : List ℕ)
    → IsBefore prev base
    → All IsU32 xs
    → IsBefore (last_of prev xs) (next_of base xs)
IsBefore-last prev base [] b h = b
IsBefore-last prev base (x ∷ xs) b h = IsBefore-last x (suc x) xs (omega arith, omega arith) h.1

-- Ids moved up.
pub map_add-bound :
    (off count : ℕ) (xs : List ℕ)
    → All (λ a. a < count) xs
    → All (λ a. a < off + count) (map (λ a. off + a) xs)
map_add-bound off count [] h = tt
map_add-bound off count (x ∷ xs) h = (omega (arith, h.0), map_add-bound off count xs h.1)

pub next_of-bound :
    (base bound : ℕ) (xs : List ℕ)
    → base ≤ bound
    → All (λ a. a < bound) xs
    → next_of base xs ≤ bound
next_of-bound base bound [] le h = le
next_of-bound base bound (x ∷ xs) le h = next_of-bound (suc x) bound xs h.0 h.1

pub bound-IsU32 :
    (bound : ℕ) (xs : List ℕ) → bound ≤ 2 ^ 32 → All (λ a. a < bound) xs → All IsU32 xs
bound-IsU32 bound [] le h = tt
bound-IsU32 bound (x ∷ xs) le h = (omega (arith, h.0), bound-IsU32 bound xs le h.1)

wrapped : (a b : ℕ) → a ≤ b → b < 2 ^ 64 → u64 (b + (2 ^ 64 - u64 a)) ≡ b - a
wrapped a b le below = omega arith

-- What the batches of a merge read of a source.
module _ (type : IndexType) (s : Source) (h : IsSource type s) where
  run_size-offsets :
      (t count : ℕ)
      → t + count ≤ num_trigrams
      → run_size s.helper t count ≡ start_of s.run (t + count) - start_of s.run t
  unfolding run_size
  run_size-offsets t count le =
      let left = num_trigrams - (t + count) in
      let whole : t + count + left ≡ num_trigrams = omega arith in
      let before = start_grows type s.run h.fits t count in
      let behind = start_grows type s.run h.fits (t + count) left in
      let end = ap (start_of s.run) whole in
      let fits = h.fits in
      let from = start_of s.run t in
      let to = start_of s.run (t + count) in
      let below : to < 2 ^ 64 = omega (arith, fits, behind, end) in
      rw (h.offsets t (omega arith), h.offsets (t + count) le) (wrapped from to before below)

  pub run_size-source :
      (t count : ℕ)
      → t + count ≤ num_trigrams
      → run_size s.helper t count ≡ length (coded s.run t count)
  run_size-source t count le =
      let z : 0 + t ≡ t = omega arith in
      let split : coded s.run 0 (t + count) ≡ coded s.run 0 t ++ coded s.run t count =
        coded-split s.run 0 t count ∙ ap (λ n. coded s.run 0 t ++ coded s.run n count) z in
      rw (run_size-offsets t count le)
        (omega (arith, ap length split, length-append (coded s.run 0 t) (coded s.run t count)))

  pub pread-source :
      (t count : ℕ)
      → t + count ≤ num_trigrams
      → s.helper.index.ndxfile.pread (run_size s.helper t count) (s.helper.run_offset_cache t)
        ≡ coded s.run t count
  pread-source t count le =
      rw (run_size-offsets t count le, h.offsets t (omega arith), h.file)
        (pread-layout type s.run h.fits t count le)

  -- A run within a batch.
  pub slice-source :
      (front back batch : List ℕ) (t batch_size i : ℕ)
      → batch ≡ front ++ (coded s.run t batch_size ++ back)
      → i < batch_size
      → t + batch_size ≤ num_trigrams
      → take
          (length front + run_size s.helper t (i + 1) - (length front + run_size s.helper t i))
          (drop (length front + run_size s.helper t i) batch)
        ≡ encoding 0 (s.run (t + i))
  slice-source front back batch t batch_size i e below le =
      let left = batch_size - suc i in
      let part = encoding 0 (s.run (t + i)) in
      let more = coded s.run (suc (t + i)) left in
      let count : batch_size ≡ i + suc left = omega arith in
      let next : i + 1 ≡ suc i = omega arith in
      let parts : coded s.run t batch_size ≡ coded s.run t i ++ (part ++ more) =
        ap (coded s.run t) count ∙ coded-split s.run t i (suc left) ∙ unfold coded in refl in
      let here = run_size-source t i (omega arith) in
      let after = run_size-source t (i + 1) (omega arith) in
      let longer : length (coded s.run t (i + 1)) ≡ length (coded s.run t i) + length part =
        ap (λ n. length (coded s.run t n)) next
        ∙ ap length (coded_last s.run t i)
        ∙ length-append (coded s.run t i) part in
      let whole : batch ≡ (front ++ coded s.run t i) ++ (part ++ (more ++ back)) =
        e ∙ ap (λ mid. front ++ (mid ++ back)) parts ∙ simp append_assoc in
      ap
        (λ bs.
          take (length front + run_size s.helper t (i + 1) - (length front + run_size s.helper t i))
            (drop (length front + run_size s.helper t i) bs))
        whole
      ∙ slice_lem (front ++ coded s.run t i) part (more ++ back) _ _
          (omega (arith, here, length-append front (coded s.run t i)))
          (omega (arith, here, after, longer))
