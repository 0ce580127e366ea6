-- ===== src/Search.antt =====
-- A query from its text's meaning to its result: `plan`, `q_optimize` and `run`, as
-- `DatabaseSnapshot::execute` and `OnDiskDataset::execute` of libursa call them.
use ursadb.Prelude.{
  arith, ℕ, ◌<◌, ◌≡◌, refl, sym, ap, ◌∙◌, Bool, true, false, List, ◌∷◌, [], ◌+◌, ◌&&◌, ◌||◌, leb,
  Option, none, some, Option-cases, inl, inr, All, Result, ok,
}
use ursadb.Core.{IndexType, wide8, gram3, text4, hash4, num_trigrams}
use ursadb.Ngram.Converted.{convert_gram_at-small}
use ursadb.Codec.Encoding.{IsByte}
use ursadb.QueryResult.Ops.{QueryResult}
use ursadb.QueryResult.Sets.{Means}
use ursadb.QueryResult.Branches.{ResultOf}
use ursadb.Query.Syntax.{
  PrimitiveQuery, QString, Query, Queries, literal, ngram, and_of, or_of, min_of, nil, cons,
}
use ursadb.Query.Meaning.{holds, CountsFit, AllFit, Any}
use ursadb.Query.Run.{run}
use ursadb.Query.Sound.{run-Means}
use ursadb.Query.Occurs.{asks, indexed}
use ursadb.Ngram.Convert.{convert_gram_at}
use ursadb.Query.Plan.{add_gram, gram_if, plan, plan_all, plan_qstring, plan_loop}
use ursadb.Query.Covers.{plan-covers}
use ursadb.Optimizer.Optimize.{q_optimize}
use ursadb.Optimizer.Optimized.{q_optimize-holds}

-- The index has ngrams of this type, and it is one of them.
abbrev pub Indexed : (IndexType → Bool) → PrimitiveQuery → Type 0
Indexed types g = (types g.itype ≡ true) × (g.trigram < num_trigrams)

-- What `plan` asks a string's ngram for.
abbrev Grams : (IndexType → Bool) → IndexType → Option ℕ → Type 0
Grams types type o = (gram : ℕ) → o ≡ some gram → (types type ≡ true) × (gram < num_trigrams)

module _ (types : IndexType → Bool) where
  add_gram-AllFit :
      (type : IndexType) (o : Option ℕ) (plan : Queries)
      → Grams types type o
      → AllFit (Indexed types) plan
      → AllFit (Indexed types) (add_gram type o plan)
  unfolding AllFit CountsFit
  add_gram-AllFit type none plan has h = h
  add_gram-AllFit type (some g) plan has h = (has g refl, h)

  -- An ngram is only made of a type that the index has.
  gram_if-Grams :
      (type : IndexType) (test : Bool) (string : QString)
      → (test ≡ true → types type ≡ true)
      → Grams types type (gram_if test (convert_gram_at type string))
  gram_if-Grams type false string has gram h = absurd (ground (arith, h))
  gram_if-Grams type true string has gram h = (has refl, convert_gram_at-small type string gram h)

  and_right : (a b : Bool) → a && b ≡ true → b ≡ true
  and_right a b h = ground arith

  plan_loop-AllFit :
      (string : QString) (skip_to i : ℕ) → AllFit (Indexed types) (plan_loop types skip_to i string)
  unfolding plan_loop AllFit
  plan_loop-AllFit [] skip_to i = tt
  plan_loop-AllFit (s ∷ []) skip_to i = tt
  plan_loop-AllFit (s ∷ t ∷ []) skip_to i = tt
  plan_loop-AllFit (s ∷ t ∷ u ∷ rest) skip_to i =
      let string = s ∷ t ∷ u ∷ rest in
      elim (Option-cases (gram_if (types wide8) (convert_gram_at wide8 string))) [
        | inr (gram, e) ↦
            rw (e, plan_loop)
              (add_gram-AllFit wide8 (some gram) _
                (rw e at (gram_if-Grams wide8 (types wide8) string (λ h. h)))
                (plan_loop-AllFit (u ∷ rest) (i + 6) (i + 2)))
        | inl no_wide ↦ elim (Option-cases (gram_if (types text4) (convert_gram_at text4 string))) [
          | inr (gram, e) ↦
              rw (no_wide, e, plan_loop)
                (add_gram-AllFit text4 (some gram) _
                  (rw e at (gram_if-Grams text4 (types text4) string (λ h. h)))
                  (plan_loop-AllFit (t ∷ u ∷ rest) (i + 2) (i + 1)))
          | inl no_text ↦
              let plan3 = plan_loop types skip_to (i + 1) (t ∷ u ∷ rest) in
              let gram3s = gram_if (leb skip_to i && types gram3) (convert_gram_at gram3 string) in
              let gram4s =
                gram_if (leb skip_to (i + 1) && types hash4) (convert_gram_at hash4 string) in
              rw (no_wide, no_text, plan_loop)
                (add_gram-AllFit hash4 gram4s (add_gram gram3 gram3s plan3)
                  (gram_if-Grams hash4 _ string (and_right _ _))
                  (add_gram-AllFit gram3 gram3s plan3 (gram_if-Grams gram3 _ string (and_right _ _))
                    (plan_loop-AllFit (t ∷ u ∷ rest) skip_to (i + 1))))
        ]
      ]

  mutual
    unfolding plan CountsFit plan_qstring

    plan-CountsFit : (q : Query) → CountsFit Any q → CountsFit (Indexed types) (plan types q)
    plan-CountsFit (literal value) h = plan_loop-AllFit value 0 0
    plan-CountsFit (ngram g) h = tt
    plan-CountsFit (and_of qs) h = plan_all-AllFit qs h
    plan-CountsFit (or_of qs) h = plan_all-AllFit qs h
    plan-CountsFit (min_of count qs) h = (h.0, plan_all-AllFit qs h.1)

    plan_all-AllFit : (qs : Queries) → AllFit Any qs → AllFit (Indexed types) (plan_all types qs)
    plan_all-AllFit nil h = tt
    plan_all-AllFit (cons q qs) h = (plan-CountsFit q h.0, plan_all-AllFit qs h.1)

implied : (a b : Bool) → (a ≡ true → b ≡ true) → (a || b) ≡ b
implied true b h = sym (h refl)
implied false b h = refl

-- The search misses no file: over an index without wide8 that answers for the ngrams that it has of
-- every file, planning, optimizing and running a query whose counts fit into an `int` gives a result, and every
-- file that the query asks for is in it; of two files with the same bytes both are in it, or neither is.
pub search_complete :
    (types : IndexType → Bool) (primitive : PrimitiveQuery → Result QueryResult) (file : ℕ → List ℕ)
    (q : Query)
    → types wide8 ≡ false
    → ((a : ℕ) → All IsByte (file a))
    → ((g : PrimitiveQuery) → Indexed types g → ResultOf (primitive g) (λ a. indexed (file a) g))
    → CountsFit Any q
    → (o : Query) × (r : QueryResult) × (member : ℕ → Bool) × (q_optimize (plan types q) ≡ ok o)
      × (run primitive o ≡ ok r)
      × Means r member
      × ((a : ℕ) → (asks (file a) q || member a) ≡ member a)
      × ((a b : ℕ) → file a ≡ file b → member a ≡ member b)
search_complete types primitive file q no_wide bytes answers fits =
    let (o, optimized, o_fits, same) =
      q_optimize-holds (Indexed types) (plan types q) (plan-CountsFit types q fits) in
    let (r, ran, means) =
      run-Means (Indexed types) primitive (λ a. indexed (file a)) answers o o_fits in
    (
      o,
      r,
      (λ a. holds (indexed (file a)) o),
      optimized,
      ran,
      means,
      λ a.
          implied (asks (file a) q) (holds (indexed (file a)) o)
            (λ h. same (indexed (file a)) ∙ plan-covers types (file a) q no_wide (bytes a) h),
      λ a b e. ap (λ mem. holds (indexed mem) o) e,
    )
