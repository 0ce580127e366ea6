-- ===== src/Index/MergeHolds.antt =====
-- The runs of a merge (libursa/OnDiskIndex.cpp) hold the ngrams of the files of all the indexes.
use ursadb.Prelude.{
  ℕ, zero, suc, ◌+◌, ◌-◌, ◌≤◌, ◌<◌, ◌≡◌, refl, sym, ap, ◌∙◌, false, ◌&&◌, ◌||◌, List, [], ◌∷◌, ◌++◌,
  map, ltb, leb, arith, length, All, elem, IsRunFrom, IsRunFrom-weaken, elem_below, Bool-cases, inl,
  inr,
}
use ursadb.Core.{IndexType, num_trigrams}
use ursadb.Query.Occurs.{indexed}
use ursadb.Index.Files.{file_at, gram, indexed-none}
use ursadb.Index.Merged.{Source, IsSource, merged, file_total, map_add-bound}

-- The files of all the indexes, in their order.
abbrev pub all_files : List Source → List (List ℕ)
all_files [] = []
all_files (s ∷ sources) = s.files ++ all_files sources

-- Ids moved up are a run again.
map_add-IsRunFrom :
    (off base : ℕ) (xs : List ℕ)
    → IsRunFrom base xs
    → IsRunFrom (off + base) (map (λ a. off + a) xs)
map_add-IsRunFrom off base [] h = tt
map_add-IsRunFrom off base (x ∷ xs) h =
    let e : suc (off + x) ≡ off + suc x = omega arith in
    (omega arith, rw e (map_add-IsRunFrom off (suc x) xs h.1))

IsRunFrom-append :
    (base bound : ℕ) (xs ys : List ℕ)
    → base ≤ bound
    → IsRunFrom base xs
    → All (λ a. a < bound) xs
    → IsRunFrom bound ys
    → IsRunFrom base (xs ++ ys)
IsRunFrom-append base bound [] ys le run below more = IsRunFrom-weaken base bound ys le more
IsRunFrom-append base bound (x ∷ xs) ys le run below more =
    (run.0, IsRunFrom-append (suc x) bound xs ys below.0 run.1 below.1 more)

All-append {κ} : (P : ℕ → Type κ) (xs ys : List ℕ) → All P xs → All P ys → All P (xs ++ ys)
All-append P [] ys h k = k
All-append P (x ∷ xs) ys h k = (h.0, All-append P xs ys h.1 k)

All-below : (m n : ℕ) (xs : List ℕ) → m ≤ n → All (λ a. a < m) xs → All (λ a. a < n) xs
All-below m n [] le h = tt
All-below m n (x ∷ xs) le h = (omega (arith, h.0), All-below m n xs le h.1)

elem-append : (a : ℕ) (xs ys : List ℕ) → elem a (xs ++ ys) ≡ (elem a xs || elem a ys)
elem-append a [] ys = refl
elem-append a (x ∷ xs) ys = ground (arith, elem-append a xs ys)

elem-map_add :
    (off a : ℕ) (xs : List ℕ) → elem a (map (λ b. off + b) xs) ≡ (leb off a && elem (a - off) xs)
elem-map_add off a [] = ground arith
elem-map_add off a (x ∷ xs) = ground (arith, elem-map_add off a xs)

pub elem-bound :
    (a bound : ℕ) (xs : List ℕ) → All (λ b. b < bound) xs → bound ≤ a → elem a xs ≡ false
elem-bound a bound [] h le = refl
elem-bound a bound (x ∷ xs) h le = ground (arith, elem-bound a bound xs h.1)

file_at-front :
    (files more : List (List ℕ)) (a : ℕ)
    → a < length files
    → file_at (files ++ more) a ≡ file_at files a
unfolding file_at
file_at-front [] more a h = absurd (omega arith)
file_at-front (m ∷ files) more zero h = refl
file_at-front (m ∷ files) more (suc a) h = file_at-front files more a (omega arith)

file_at-back :
    (files more : List (List ℕ)) (a : ℕ)
    → file_at (files ++ more) (length files + a) ≡ file_at more a
unfolding file_at
file_at-back [] more a = let z : 0 + a ≡ a = omega arith in rw z refl
file_at-back (m ∷ files) more a =
    let e : suc (length files) + a ≡ suc (length files + a) = omega arith in
    rw e (file_at-back files more a)

module _ (type : IndexType) where
  pub merged-IsRunFrom :
      (sources : List Source) (base t : ℕ)
      → All (IsSource type) sources
      → IsRunFrom base (merged base sources t)
        × All (λ a. a < base + file_total sources) (merged base sources t)
  unfolding merged
  merged-IsRunFrom [] base t h = (tt, tt)
  merged-IsRunFrom (s ∷ sources) base t h =
      let next = base + s.helper.file_count in
      let moved = map (λ a. base + a) (s.run t) in
      let z : base + 0 ≡ base = omega arith in
      let run : IsRunFrom base moved = rw z at (map_add-IsRunFrom base 0 (s.run t) (h.0.runs t)) in
      let below = map_add-bound base s.helper.file_count (s.run t) (h.0.ids t) in
      let (more_run, more_below) = merged-IsRunFrom sources next t h.1 in
      let e : next + file_total sources ≡ base + (s.helper.file_count + file_total sources) =
        omega arith in
      (
        IsRunFrom-append base next moved (merged next sources t) (omega arith) run below more_run,
        All-append (λ a. a < base + (s.helper.file_count + file_total sources)) moved _
            (All-below next _ moved (omega arith) below) (rw e at more_below),
      )

  -- The merged ids are those of the files that have the ngram.
  pub merged-HoldsFiles :
      (sources : List Source) (base t a : ℕ)
      → All (IsSource type) sources
      → t < num_trigrams
      → elem (base + a) (merged base sources t)
        ≡ indexed (file_at (all_files sources) a) (gram type t)
  unfolding merged
  merged-HoldsFiles [] base t a h below =
      sym (ap (λ mem. indexed mem (gram type t)) (no_file a) ∙ indexed-none (gram type t))
    where
      no_file : (b : ℕ) → file_at [] b ≡ []
      no_file b = unfold file_at in refl
  merged-HoldsFiles (s ∷ sources) base t a h below =
      let ids = s.run t in
      let moved = map (λ b. base + b) ids in
      let next = base + s.helper.file_count in
      let more = merged next sources t in
      let rest = all_files sources in
      let back : base + a - base ≡ a = omega arith in
      let here : elem (base + a) moved ≡ elem a ids =
        elem-map_add base (base + a) ids ∙ rw back (ground arith) in
      let parts = elem-append (base + a) moved more in
      elim (Bool-cases (ltb a s.helper.file_count)) [
        | inl inside ↦
            let gone : elem (base + a) more ≡ false =
              elem_below (base + a) next more (ground arith)
                (merged-IsRunFrom sources next t h.1).0 in
            let file = file_at-front s.files rest a (ground (arith, h.0.counted)) in
            parts ∙ rw (here, gone, h.0.holds t a below, file) (ground arith)
        | inr outside ↦
            let b = a - s.helper.file_count in
            let e : base + a ≡ next + b = ground arith in
            let f : a ≡ length s.files + b = ground (arith, h.0.counted) in
            let gone : elem a ids ≡ false =
              elem-bound a s.helper.file_count ids (h.0.ids t) (ground arith) in
            let file : file_at (s.files ++ rest) a ≡ file_at rest b =
              ap (file_at (s.files ++ rest)) f ∙ file_at-back s.files rest b in
            let later = ap (λ n. elem n more) e ∙ merged-HoldsFiles sources next t b h.1 below in
            parts ∙ rw (here, gone, file) later
      ]
