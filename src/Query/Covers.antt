-- ===== src/Query/Covers.antt =====
-- A planned query (`Query::plan`, libursa/Query.cpp) asks only for ngrams that are indexed of every
-- file that the query asks for.
use ursadb.Prelude.{
  ℕ, ◌+◌, ◌≤◌, ◌≡◌, refl, sym, ap, ◌∙◌, Bool, true, false, ◌&&◌, List, [], ◌∷◌, ◌++◌, arith, leb,
  Option, none, some, Option-cases, Bool-cases, inl, inr, elem, All,
}
use mathlib.Core.Path.{subst}
use ursadb.Core.{IndexType, gram3, text4, hash4, wide8}
use ursadb.Codec.Encoding.{IsByte}
use ursadb.Query.Syntax.{
  QToken, QString, Query, Queries, literal, ngram, and_of, or_of, min_of, nil, cons,
}
use ursadb.Query.Meaning.{holds, all_hold, any_holds, number_hold}
use ursadb.Query.Occurs.{starts_with, occurs, asks, asks_all, asks_any, asks_number, indexed}
use ursadb.Query.Plan.{add_gram, gram_if, plan_loop, plan_qstring, plan, plan_all}
use ursadb.Query.Gather.{Gathered, gather-Gathered}
use ursadb.Ngram.Generators.{get_generator_for, get_ngram_size_for}
use ursadb.Ngram.Convert.{gather, convert_gram, convert_gram_at}
use ursadb.Ngram.Windows.{narrow, convert_gram-indexed}

size_le : (type : IndexType) → get_ngram_size_for type ≤ 8
unfolding get_ngram_size_for
size_le gram3 = omega arith
size_le text4 = omega arith
size_le hash4 = omega arith
size_le wide8 = omega arith

of_Gathered :
    (type : IndexType) (pre mem : List ℕ) (source g : ℕ)
    → narrow type ≡ true
    → Gathered (get_ngram_size_for type) 0 mem source
    → convert_gram type source ≡ some g
    → elem g (get_generator_for type (pre ++ mem)) ≡ true
of_Gathered type pre mem source g n found e =
    subst (λ t. elem g (get_generator_for type (pre ++ t)) ≡ true) found.front
      (convert_gram-indexed type found.window pre found.behind g n found.size found.fits
        (ap (λ t. convert_gram type t) found.packed ∙ e))

convert_gram_at-some :
    (type : IndexType) (string : QString) (source : ℕ)
    → gather (get_ngram_size_for type) 0 string ≡ some source
    → convert_gram_at type string ≡ convert_gram type source
unfolding convert_gram_at
convert_gram_at-some type string source e = rw (e, convert_gram_at) refl

convert_gram_at-none :
    (type : IndexType) (string : QString)
    → gather (get_ngram_size_for type) 0 string ≡ none
    → convert_gram_at type string ≡ none
unfolding convert_gram_at
convert_gram_at-none type string e = rw (e, convert_gram_at) refl

-- What `convert_gram` gives where the string occurs.
convert_gram_at-indexed :
    (type : IndexType) (string : QString) (pre mem : List ℕ) (g : ℕ)
    → narrow type ≡ true
    → All IsByte mem
    → starts_with string mem ≡ true
    → convert_gram_at type string ≡ some g
    → elem g (get_generator_for type (pre ++ mem)) ≡ true
convert_gram_at-indexed type string pre mem g n bytes here e =
    elim (Option-cases (gather (get_ngram_size_for type) 0 string)) [
      | inl no_gram ↦ let nothing = convert_gram_at-none type string no_gram in cc
      | inr (source, got) ↦
          of_Gathered type pre mem source g n
            (gather-Gathered (get_ngram_size_for type) 0 0 string mem source (omega arith)
              (omega (arith, size_le type)) bytes here got)
            (sym (convert_gram_at-some type string source got) ∙ e)
    ]

gram_if-some : (test : Bool) (o : Option ℕ) (g : ℕ) → gram_if test o ≡ some g → o ≡ some g
gram_if-some true o g e = e
gram_if-some false o g e = cc

-- A gram that is added holds, and what was planned still does.
add_gram-holds :
    (file : List ℕ) (type : IndexType) (test : Bool) (o : Option ℕ) (plan : Queries)
    → ((g : ℕ) → o ≡ some g → elem g (get_generator_for type file) ≡ true)
    → all_hold (indexed file) plan ≡ true
    → all_hold (indexed file) (add_gram type (gram_if test o) plan) ≡ true
unfolding all_hold holds indexed
add_gram-holds file type false o plan h later = later
add_gram-holds file type true none plan h later = later
add_gram-holds file type true (some g) plan h later = rw (h g refl) later

append_one : (pre mem : List ℕ) (b : ℕ) → (pre ++ (b ∷ [])) ++ mem ≡ pre ++ (b ∷ mem)
append_one [] mem b = refl
append_one (p ∷ pre) mem b = ap (λ t. p ∷ t) (append_one pre mem b)

starts_behind :
    (s : QToken) (b : ℕ) (string : QString) (mem : List ℕ)
    → starts_with (s ∷ string) (b ∷ mem) ≡ true
    → starts_with string mem ≡ true
starts_behind s b string mem h = ground arith

module _ (types : IndexType → Bool) (no_wide : types wide8 ≡ false) where
  plan_loop-holds :
      (string : QString) (skip_to i : ℕ) (pre mem : List ℕ)
      → All IsByte mem
      → starts_with string mem ≡ true
      → all_hold (indexed (pre ++ mem)) (plan_loop types skip_to i string) ≡ true
  unfolding plan_loop all_hold
  plan_loop-holds [] skip_to i pre mem bytes here = refl
  plan_loop-holds (s ∷ []) skip_to i pre mem bytes here = refl
  plan_loop-holds (s ∷ t ∷ []) skip_to i pre mem bytes here = refl
  plan_loop-holds (s ∷ t ∷ u ∷ rest) skip_to i pre [] bytes here = cc
  plan_loop-holds (s ∷ t ∷ u ∷ rest) skip_to i pre (b ∷ mem) bytes here =
      let string = s ∷ t ∷ u ∷ rest in
      let file = pre ++ (b ∷ mem) in
      let there : starts_with (t ∷ u ∷ rest) mem ≡ true =
        starts_behind s b (t ∷ u ∷ rest) mem here in
      let later : (k j : ℕ)
          → all_hold (indexed (pre ++ (b ∷ mem))) (plan_loop types k j (t ∷ u ∷ rest)) ≡ true =
        λ k j.
          subst (λ f. all_hold (indexed f) (plan_loop types k j (t ∷ u ∷ rest)) ≡ true)
            (append_one pre mem b)
            (plan_loop-holds (t ∷ u ∷ rest) k j (pre ++ (b ∷ [])) mem bytes.1 there) in
      let found : (type : IndexType)
          → narrow type ≡ true
          → (g : ℕ) → convert_gram_at type string ≡ some g
          → elem g (get_generator_for type (pre ++ (b ∷ mem))) ≡ true =
        λ type n g e. convert_gram_at-indexed type string pre (b ∷ mem) g n bytes here e in
      rw (no_wide, plan_loop)
        (elim (Option-cases (gram_if (types text4) (convert_gram_at text4 string))) [
          | inl no_text ↦
              let plan3 = plan_loop types skip_to (i + 1) (t ∷ u ∷ rest) in
              let test3 = leb skip_to i && types gram3 in
              let plan4 = add_gram gram3 (gram_if test3 (convert_gram_at gram3 string)) plan3 in
              rw no_text (
                add_gram-holds file hash4 (leb skip_to (i + 1) && types hash4) _ plan4
                  (found hash4 refl)
                  (add_gram-holds file gram3 test3 _ plan3 (found gram3 refl)
                    (later skip_to (i + 1))))
          | inr (gram, e) ↦ rw e (
              add_gram-holds file text4 true (some gram)
                (plan_loop types (i + 2) (i + 1) (t ∷ u ∷ rest))
                (λ g same. found text4 refl g (gram_if-some (types text4) _ g (e ∙ same)))
                (later (i + 2) (i + 1)))
        ])

  -- The plan of a string holds where the string occurs.
  plan_qstring-holds :
      (string : QString) (pre mem : List ℕ)
      → All IsByte mem
      → occurs string mem ≡ true
      → holds (indexed (pre ++ mem)) (plan_qstring types string) ≡ true
  unfolding plan_qstring holds
  plan_qstring-holds string pre [] bytes here = plan_loop-holds string 0 0 pre [] bytes here
  plan_qstring-holds string pre (b ∷ mem) bytes here =
      elim (Bool-cases (starts_with string (b ∷ mem))) [
        | inl now ↦ plan_loop-holds string 0 0 pre (b ∷ mem) bytes now
        | inr later ↦
            subst (λ f. all_hold (indexed f) (plan_loop types 0 0 string) ≡ true)
              (append_one pre mem b)
              (plan_qstring-holds string (pre ++ (b ∷ [])) mem bytes.1 (ground arith))
      ]

  module _ (mem : List ℕ) (bytes : All IsByte mem) where
    nothing_asked : plan_qstring types [] ≡ and_of nil
    unfolding plan_qstring plan_loop
    nothing_asked = refl

    mutual
      unfolding plan holds asks

      plan-holds : (q : Query) → asks mem q ≡ true → holds (indexed mem) (plan types q) ≡ true
      plan-holds (literal value) h = plan_qstring-holds value [] mem bytes h
      plan-holds (ngram g) h = rw nothing_asked refl
      plan-holds (and_of qs) h = plan_all-all qs h
      plan-holds (or_of qs) h = plan_all-any qs h
      plan-holds (min_of count qs) h = ground (arith, plan_all-number qs)

      plan_all-all :
          (qs : Queries)
          → asks_all mem qs ≡ true
          → all_hold (indexed mem) (plan_all types qs) ≡ true
      plan_all-all nil h = refl
      plan_all-all (cons q qs) h = ground (arith, plan-holds q, plan_all-all qs)

      plan_all-any :
          (qs : Queries)
          → asks_any mem qs ≡ true
          → any_holds (indexed mem) (plan_all types qs) ≡ true
      plan_all-any nil h = cc
      plan_all-any (cons q qs) h = ground (arith, plan-holds q, plan_all-any qs)

      plan_all-number :
          (qs : Queries) → asks_number mem qs ≤ number_hold (indexed mem) (plan_all types qs)
      plan_all-number nil = omega arith
      plan_all-number (cons q qs) = ground (arith, plan-holds q, plan_all-number qs)

-- Without wide8, what `plan` makes of a query holds for every file that the query asks for.
pub plan-covers :
    (types : IndexType → Bool) (mem : List ℕ) (q : Query)
    → types wide8 ≡ false
    → All IsByte mem
    → asks mem q ≡ true
    → holds (indexed mem) (plan types q) ≡ true
plan-covers types mem q no_wide bytes h = plan-holds types no_wide mem bytes q h
