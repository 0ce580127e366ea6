-- ===== src/Tests/Sample.antt =====
-- A file with the bytes "abc", number 0, and an index of it.
use ursadb.Prelude.{
  ℕ, zero, suc, ◌+◌, ◌-◌, ◌^◌, ◌≤◌, ◌<◌, ◌≡◌, refl, Bool-cases, inl, inr, List, [], ◌∷◌, arith,
  if◌then◌else◌, ◌==◌, ◌||◌, false, length, length-append, All, elem, IsRun, ap, ◌∙◌, u64,
}
use ursadb.Codec.Bytes.{put_diff_small}
use ursadb.Codec.Encoding.{encoding, IsByte}
use ursadb.Core.{gram3, num_trigrams}
use ursadb.Index.Bytes.{as_index_file}
use ursadb.Index.File.{OnDiskIndex}
use ursadb.Index.Files.{file_at, gram, HoldsFiles, indexed-none}
use ursadb.Index.Layout.{coded, coded-split, layout, start_of}
use ursadb.Ngram.Generators.{get_generator_for, gen_trigrams, trigrams_loop}
use ursadb.Dataset.Parts.{coded_short}
use ursadb.Query.Occurs.{indexed}

abbrev pub abc_file : List ℕ
abc_file = 97 ∷ 98 ∷ 99 ∷ []

abbrev pub abc_files : List (List ℕ)
abc_files = abc_file ∷ []

abbrev pub abc_gram : ℕ
abc_gram = 6382179

abbrev pub abc_run : ℕ → List ℕ
abc_run t = if t == abc_gram then 0 ∷ [] else []

abbrev pub abc_index : OnDiskIndex
abc_index = record { ndxfile = as_index_file (layout gram3 abc_run num_trigrams); ntype = gram3 }

pub abc_bytes : All IsByte abc_file
abc_bytes = (omega arith, (omega arith, (omega arith, tt)))

pub abc_grams : get_generator_for gram3 abc_file ≡ abc_gram ∷ []
unfolding get_generator_for gen_trigrams trigrams_loop
abc_grams = refl

abc_indexed : (t : ℕ) → indexed abc_file (gram gram3 t) ≡ ((t == abc_gram) || false)
unfolding indexed
abc_indexed t = ap (elem t) abc_grams

pub abc_holds : HoldsFiles gram3 abc_run abc_files
unfolding file_at
abc_holds t zero below =
    rw (abc_indexed t)
      (elim (Bool-cases (t == abc_gram)) [ inl here ↦ rw here refl | inr away ↦ rw away refl ])
abc_holds t (suc a) below = rw (indexed-none (gram gram3 t)) (elim (Bool-cases (t == abc_gram)) [
  | inl here ↦ rw here (ground arith)
  | inr away ↦ rw away refl
])

pub abc_runs : (t : ℕ) → IsRun (abc_run t)
abc_runs t = elim (Bool-cases (t == abc_gram)) [
  | inl here ↦ rw here (omega arith, tt)
  | inr away ↦ rw away tt
]

pub abc_ids : (t : ℕ) → All (λ a. a < 1) (abc_run t)
abc_ids t = elim (Bool-cases (t == abc_gram)) [
  | inl here ↦ rw here (omega arith, tt)
  | inr away ↦ rw away tt
]

short : (ids : List ℕ) → All (λ a. a < 1) ids → IsRun ids → length (encoding 0 ids) ≤ 1
unfolding encoding
short [] h r = omega arith
short (zero ∷ []) h r = rw (put_diff_small 0 (omega arith)) (omega arith)
short (zero ∷ y ∷ ids) h r = absurd (omega (arith, r.1.0, h.1.0))
short (suc x ∷ ids) h r = absurd (omega (arith, h.0))

abc_short : (t : ℕ) → length (encoding 0 (abc_run t)) ≤ 1
abc_short t = short (abc_run t) (abc_ids t) (abc_runs t)

pub abc_fits : start_of abc_run num_trigrams < 2 ^ 64
abc_fits = omega (arith, coded_short abc_run 1 0 num_trigrams abc_short)

-- The size of some runs, as a merge counts it.
pub abc_size : (t j : ℕ) → u64 (start_of abc_run (t + j) + (2 ^ 64 - u64 (start_of abc_run t))) ≤ j
abc_size t j =
    let z : 0 + t ≡ t = omega arith in
    let split = rw z at (coded-split abc_run 0 t j) in
    let e : length (coded abc_run 0 (t + j))
        ≡ length (coded abc_run 0 t) + length (coded abc_run t j) =
      ap length split ∙ length-append (coded abc_run 0 t) (coded abc_run t j) in
    wrapped_size (length (coded abc_run 0 t)) (length (coded abc_run t j)) _ j e
      (omega (arith, coded_short abc_run 1 t j abc_short))
  where
    wrapped_size : (a d b j : ℕ) → b ≡ a + d → d ≤ j → u64 (16 + b + (2 ^ 64 - u64 (16 + a))) ≤ j
    wrapped_size a d b j e le = omega arith
