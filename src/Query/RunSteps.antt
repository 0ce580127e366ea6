-- ===== src/Query/RunSteps.antt =====
-- One round of each loop of `Query::run` (libursa/Query.cpp), from what the later rounds give.
use ursadb.Prelude.{
  ℕ, suc, ◌+◌, ◌-◌, ◌≤◌, ◌≡◌, refl, Bool, true, false, ◌&&◌, ◌||◌, List, [], ◌∷◌, ◌++◌, arith, ltb,
  leb, if◌then◌else◌, length, length-append, Result, ok, ◌>>=◌, Bool-cases, on_true, on_false, ◌∙◌,
  inl, inr,
}
use ursadb.QueryResult.Ops
use ursadb.QueryResult.Ops.{QueryResult, everything, is_empty}
use ursadb.QueryResult.Sets.{
  Means, all, just, empty-Means, Means-ext, is_empty-Means, do_or-Means, do_and-Means,
}
use ursadb.QueryResult.Branches.{ResultOf}
use ursadb.QueryResult.MinOf.{AllMean, count_true}

pub has_everything-Means :
    {q : QueryResult} {m : ℕ → Bool} → Means q m → q.has_everything ≡ true → (a : ℕ) → m a ≡ true
has_everything-Means (all e f) h a = f a
has_everything-Means (just ids e rep f) h a = ground arith

module _ {result : QueryResult} {m n k : ℕ → Bool} {next : Result QueryResult}
    (rest : QueryResult → Result QueryResult) (so_far : Means result m)
    (this : ResultOf next n) where
  pub and_step :
      ((r : QueryResult) (m' : ℕ → Bool) → Means r m' → ResultOf (rest r) (λ a. m' a && k a))
      → ResultOf
          (next >>= λ q.
            Ops.do_and result q >>= λ r. elim (is_empty r) [ true ↦ ok r | false ↦ rest r ])
          (λ a. m a && (n a && k a))
  and_step later =
      let (q, e, means) = this in
      let (r, e', both) = do_and-Means so_far means in
      rw (e, e')
        (elim (Bool-cases (is_empty r)) [
          | inl nothing ↦ (
            r,
            on_true (is_empty r) (ok r) (rest r) nothing,
            Means-ext (λ a. ground (arith, is_empty-Means both nothing a)) both,
          )
          | inr something ↦
              let (s, e'', means') = later r _ both in
              (
                s,
                on_false (is_empty r) (ok r) (rest r) something ∙ e'',
                Means-ext (λ a. ground arith) means',
              )
        ])

  pub or_step :
      ((r : QueryResult) (m' : ℕ → Bool) → Means r m' → ResultOf (rest r) (λ a. m' a || k a))
      → ResultOf
          (next >>= λ q.
            Ops.do_or result q >>= λ r. elim r.has_everything [ true ↦ ok r | false ↦ rest r ])
          (λ a. m a || (n a || k a))
  or_step later =
      let (q, e, means) = this in
      let (r, e', both) = do_or-Means so_far means in
      rw (e, e')
        (elim (Bool-cases r.has_everything) [
          | inl full ↦ (
            r,
            on_true r.has_everything (ok r) (rest r) full,
            Means-ext (λ a. ground (arith, has_everything-Means both full a)) both,
          )
          | inr part ↦
              let (s, e'', means') = later r _ both in
              (
                s,
                on_false r.has_everything (ok r) (rest r) part ∙ e'',
                Means-ext (λ a. ground arith) means',
              )
        ])

-- What the MIN_OF loop knows of its state: the results kept so far, and the sources that may not
-- be empty.
pub record Keeps (results : List QueryResult) (ms : List (ℕ → Bool)) : Type 0 where
  pub kept : AllMean results ms
  pub sizes : length ms ≡ length results

AllMean-snoc :
    (rs : List QueryResult) (ms : List (ℕ → Bool)) (q : QueryResult) (m : ℕ → Bool)
    → AllMean rs ms
    → Means q m
    → AllMean (rs ++ (q ∷ [])) (ms ++ (m ∷ []))
AllMean-snoc [] [] q m l h = (h, tt)
AllMean-snoc [] (n ∷ ms) q m l h = elim l [ ]
AllMean-snoc (r ∷ rs) [] q m l h = elim l [ ]
AllMean-snoc (r ∷ rs) (n ∷ ms) q m l h = (l.0, AllMean-snoc rs ms q m l.1 h)

count_true-snoc :
    (a : ℕ) (ms : List (ℕ → Bool)) (m : ℕ → Bool)
    → count_true a (ms ++ (m ∷ [])) ≡ count_true a ms + (if m a then 1 else 0)
count_true-snoc a [] m = omega arith
count_true-snoc a (n ∷ ms) m = omega (arith, count_true-snoc a ms m)

pub count_true-le : (a : ℕ) (ms : List (ℕ → Bool)) → count_true a ms ≤ length ms
count_true-le a [] = omega arith
count_true-le a (m ∷ ms) = ground (arith, count_true-le a ms)

module _ (rest : ℕ → ℕ → List QueryResult → Result QueryResult) (left : ℕ) (k : ℕ → ℕ)
    (k-le : (a : ℕ) → k a ≤ left)
    (later : (c ne : ℕ) (rs : List QueryResult) (ms : List (ℕ → Bool))
      → Keeps rs ms
      → length rs + left ≤ ne
      → ResultOf (rest c ne rs) (λ a. leb c (count_true a ms + k a)))
    (cutoff nonempty : ℕ) (results : List QueryResult) (ms : List (ℕ → Bool))
    (keeps : Keeps results ms) (enough : length results + suc left ≤ nonempty) where
  -- What the round does with the result `q` of its query.
  abbrev full_round : Result QueryResult
  full_round = elim (leb (cutoff - 1) 0) [
    | true ↦ ok everything
    | false ↦ rest (cutoff - 1) nonempty results
  ]

  abbrev empty_round : Result QueryResult
  empty_round = elim (ltb (nonempty - 1) cutoff) [
    | true ↦ ok Ops.empty
    | false ↦ rest cutoff (nonempty - 1) results
  ]

  abbrev part_round : QueryResult → Result QueryResult
  part_round q = elim (is_empty q) [
    | true ↦ empty_round
    | false ↦ rest cutoff nonempty (results ++ (q ∷ []))
  ]

  abbrev pub min_of_round : QueryResult → Result QueryResult
  min_of_round q = elim q.has_everything [ true ↦ full_round | false ↦ part_round q ]

  abbrev target : (ℕ → Bool) → ℕ → Bool
  target n a = leb cutoff (count_true a ms + ((if n a then 1 else 0) + k a))

  round_everything :
      (q : QueryResult) (n : ℕ → Bool)
      → Means q n
      → q.has_everything ≡ true
      → ResultOf (min_of_round q) (target n)
  round_everything q n means full = elim (Bool-cases (leb (cutoff - 1) 0)) [
    | inl done ↦ (
      everything,
      on_true q.has_everything full_round (part_round q) full ∙ rw (done, full_round),
      all refl (λ a. ground (arith, has_everything-Means means full a)),
    )
    | inr more ↦
        let (s, e, m) = later (cutoff - 1) nonempty results ms keeps (omega arith) in
        (
          s,
          on_true q.has_everything full_round (part_round q) full ∙ rw (more, full_round) e,
          Means-ext (λ a. ground (arith, has_everything-Means means full a)) m,
        )
  ]

  to_empty :
      (q : QueryResult)
      → q.has_everything ≡ false
      → is_empty q ≡ true
      → min_of_round q ≡ empty_round
  to_empty q part nothing =
      on_false q.has_everything full_round (part_round q) part
      ∙ on_true (is_empty q) empty_round (rest cutoff nonempty (results ++ (q ∷ []))) nothing

  round_empty :
      (q : QueryResult) (n : ℕ → Bool)
      → Means q n
      → q.has_everything ≡ false
      → is_empty q ≡ true
      → ResultOf (min_of_round q) (target n)
  round_empty q n means part nothing = elim (Bool-cases (ltb (nonempty - 1) cutoff)) [
    | inl done ↦ (
      Ops.empty,
      to_empty q part nothing ∙ rw (done, empty_round),
      Means-ext
          (λ a.
            ground (arith, is_empty-Means means nothing a, k-le a, count_true-le a ms, keeps.sizes))
          empty-Means,
    )
    | inr more ↦
        let (s, e, m) = later cutoff (nonempty - 1) results ms keeps (omega arith) in
        (
          s,
          to_empty q part nothing ∙ rw (more, empty_round) e,
          Means-ext (λ a. ground (arith, is_empty-Means means nothing a)) m,
        )
  ]

  round_kept :
      (q : QueryResult) (n : ℕ → Bool)
      → Means q n
      → q.has_everything ≡ false
      → is_empty q ≡ false
      → ResultOf (min_of_round q) (target n)
  round_kept q n means part something =
      let kept : Keeps (results ++ (q ∷ [])) (ms ++ (n ∷ [])) = record {
        kept = AllMean-snoc results ms q n keeps.kept means;
        sizes =
            omega
              (arith, length-append results (q ∷ []), length-append {0} ms (n ∷ []), keeps.sizes);
      } in
      let (s, e, m) =
        later cutoff nonempty (results ++ (q ∷ [])) (ms ++ (n ∷ [])) kept
          (omega (arith, length-append results (q ∷ []))) in
      (
        s,
        on_false q.has_everything full_round (part_round q) part
            ∙ on_false (is_empty q) empty_round (rest cutoff nonempty (results ++ (q ∷ [])))
                something
            ∙ e,
        Means-ext (λ a. ground (arith, count_true-snoc a ms n)) m,
      )

  pub min_of_step :
      {next : Result QueryResult} {n : ℕ → Bool}
      → ResultOf next n
      → ResultOf (next >>= min_of_round) (target n)
  min_of_step {n = n} (q, e, means) = rw e (elim (Bool-cases q.has_everything) [
    | inl full ↦ round_everything q n means full
    | inr part ↦ elim (Bool-cases (is_empty q)) [
      | inl nothing ↦ round_empty q n means part nothing
      | inr something ↦ round_kept q n means part something
    ]
  ])
