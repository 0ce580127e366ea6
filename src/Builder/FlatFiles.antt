-- ===== src/Builder/FlatFiles.antt =====
-- The pairs that `FlatIndexBuilder` (libursa/FlatIndexBuilder.cpp) collects are those of the files
-- that were added.
use ursadb.Prelude.{
  ℕ, ◌^◌, ◌≤◌, ◌<◌, ◌≡◌, refl, sym, ◌∙◌, false, ◌&&◌, ◌||◌, List, [], ◌∷◌, ◌++◌, ◌==◌, arith,
  length, length-append, All, elem,
}
use Prim.Native.Nat.{max}
use ursadb.Core.{IndexType, num_trigrams}
use ursadb.Codec.Encoding.{IsByte}
use ursadb.Ngram.Generators.{get_generator_for}
use ursadb.Ngram.Small.{IsGram, get_generator_for-small}
use ursadb.Query.Occurs.{indexed}
use ursadb.Index.Files.{file_at, indexed-append, gram, indexed-none}
use ursadb.Builder.Flat.{FlatIndexBuilder, new_flat, pack, add_trigram, add_trigrams, add_file}
use ursadb.Builder.Sorted.{IsPacked}

-- The builder has been given these files.
pub record FlatHolds (b : FlatIndexBuilder) (files : List (List ℕ)) : Type 0 where
  pub few : length files ≤ 2 ^ 32
  pub ids : b.max_fileid < 2 ^ 32
  pub packed : All (IsPacked b.max_fileid) b.raw_data
  pub holds :
      (t a : ℕ)
      → t < num_trigrams
      → a < 2 ^ 40
      → elem (pack a t) b.raw_data ≡ indexed (file_at files a) (gram b.ntype t)

none_held : (g : IndexType) (t a : ℕ) → false ≡ indexed (file_at [] a) (gram g t)
unfolding file_at
none_held g t a = sym (indexed-none (gram g t))

pub new_flat-FlatHolds : (type : IndexType) → FlatHolds (new_flat type) []
unfolding new_flat
new_flat-FlatHolds type = record {
  few = omega arith;
  ids = omega arith;
  packed = tt;
  holds = λ t a below small. none_held type t a;
}

elem-last : (x y : ℕ) (xs : List ℕ) → elem x (xs ++ y ∷ []) ≡ ((x == y) || elem x xs)
elem-last x y [] = ground arith
elem-last x y (z ∷ xs) = ground (arith, elem-last x y xs)

All-last {κ} : (P : ℕ → Type κ) (y : ℕ) (xs : List ℕ) → All P xs → P y → All P (xs ++ y ∷ [])
All-last P y [] h p = (p, tt)
All-last P y (z ∷ xs) h p = (h.0, All-last P y xs h.1 p)

All-weaken : (m n : ℕ) (xs : List ℕ) → m ≤ n → All (IsPacked m) xs → All (IsPacked n) xs
All-weaken m n [] le h = tt
All-weaken m n (x ∷ xs) le h = ((h.0.0, omega (arith, h.0.1)), All-weaken m n xs le h.1)

-- What the callback adds for a file.
add_trigrams_lem :
    (vals : List ℕ) (b : FlatIndexBuilder) (fid : ℕ)
    → fid ≤ b.max_fileid
    → b.max_fileid < 2 ^ 32
    → All IsGram vals
    → All (IsPacked b.max_fileid) b.raw_data
    → ((add_trigrams b fid vals).ntype ≡ b.ntype)
      × ((add_trigrams b fid vals).max_fileid ≡ b.max_fileid)
      × All (IsPacked b.max_fileid) (add_trigrams b fid vals).raw_data
      × ((t a : ℕ)
          → t < num_trigrams
          → a < 2 ^ 40
          → elem (pack a t) (add_trigrams b fid vals).raw_data
            ≡ ((a == fid) && elem t vals || elem (pack a t) b.raw_data))
unfolding add_trigrams add_trigram
add_trigrams_lem [] b fid le small grams packed = (refl, refl, packed, λ t a ht ha. ground arith)
add_trigrams_lem (val ∷ vals) b fid le small grams packed =
    let one = pack fid val in
    let (type, top, kept, member) =
      add_trigrams_lem vals (add_trigram b fid val) fid le small grams.1
        (All-last (IsPacked b.max_fileid) one b.raw_data packed (omega arith, omega arith)) in
    (
      type,
      top,
      kept,
      λ t a ht ha.
          let same : (pack a t == one) ≡ ((a == fid) && (t == val)) = ground arith in
          member t a ht ha ∙ ground (arith, elem-last (pack a t) one b.raw_data, same),
    )

-- Adding a file of bytes under the next id to a builder that holds the files before it, fewer than
-- 2 ^ 32, gives a builder of the same type that holds the file too.
pub add_file-FlatHolds :
    (b : FlatIndexBuilder) (files : List (List ℕ)) (mem : List ℕ)
    → FlatHolds b files
    → length files < 2 ^ 32
    → All IsByte mem
    → ((add_file b (length files) mem).ntype ≡ b.ntype)
      × FlatHolds (add_file b (length files) mem) (files ++ mem ∷ [])
unfolding add_file
add_file-FlatHolds b files mem h room bytes =
    let fid = length files in
    let top = max fid b.max_fileid in
    let b' : FlatIndexBuilder = record b { max_fileid = top } in
    let grams = get_generator_for-small b.ntype mem bytes in
    let (type, kept_top, packed, member) =
      add_trigrams_lem (get_generator_for b.ntype mem) b' fid (omega arith) (omega (arith, h.ids))
        grams (All-weaken b.max_fileid top b.raw_data (omega arith) h.packed) in
    (
      type,
      record {
        few = omega (arith, length-append files (mem ∷ []));
        ids = rw kept_top (omega (arith, h.ids));
        packed = rw kept_top packed;
        holds = λ t a ht ha.
            member t a ht ha
            ∙ rw type (
                indexed-append b.ntype files mem t a (elem (pack a t) b.raw_data)
                  (h.holds t a ht ha));
      },
    )
