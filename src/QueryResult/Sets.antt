-- ===== src/QueryResult/Sets.antt =====
-- The operations of libursa/QueryResult.cpp as operations on sets of file ids.
use ursadb.Prelude.{
  ℕ, ◌≡◌, refl, sym, ◌∙◌, Bool, true, false, ◌&&◌, ◌||◌, List, [], ◌∷◌, arith, ok, elem,
}
use ursadb.SortedRun.Sets.{set_union, set_intersection, elem-set_union, elem-set_intersection}
use ursadb.SortedRun.Represents.{
  Represents, of_sequence-Represents, do_or-Represents, do_and-Represents, empty-Represents,
}
use ursadb.QueryResult.Ops.{QueryResult, empty, everything, is_empty, do_or, do_and}

-- A result stands for the set whose members `member` tells.
pub data Means (q : QueryResult) (member : ℕ → Bool) : Type 0 where
  all : q.has_everything ≡ true → ((a : ℕ) → member a ≡ true) → Means q member
  just :
      (ids : List ℕ)
      → q.has_everything ≡ false
      → Represents q.results ids
      → ((a : ℕ) → elem a ids ≡ member a)
      → Means q member

pub everything-Means : Means everything (λ _. true)
everything-Means = all refl (λ _. refl)

pub empty-Means : Means empty (λ _. false)
empty-Means = just [] refl (of_sequence-Represents [] tt tt) (λ _. refl)

pub Means-ext : {q : QueryResult} {m n : ℕ → Bool} → ((a : ℕ) → m a ≡ n a) → Means q m → Means q n
Means-ext h (all e f) = all e (λ a. sym (h a) ∙ f a)
Means-ext h (just ids e rep f) = just ids e rep (λ a. f a ∙ h a)

-- `do_or` never throws and gives the union.
pub do_or-Means :
    {p q : QueryResult} {m n : ℕ → Bool}
    → Means p m
    → Means q n
    → (r : QueryResult) × (do_or p q ≡ ok r) × Means r (λ a. m a || n a)
unfolding do_or
do_or-Means (all e f) r = (everything, ground arith, all refl (λ a. ground (arith, f a)))
do_or-Means (just ids e rep f) (all g h) =
    (everything, ground arith, all refl (λ a. ground (arith, h a)))
do_or-Means {p} (just ids e rep f) (just ids' e' rep' f') =
    let (t, done, new) = do_or-Represents rep rep' in
    (
      record p { results = t },
      ground arith,
      just (set_union ids' ids) e new (λ a. ground (arith, elem-set_union a ids' ids, f a, f' a)),
    )

-- `do_and` never throws and gives the intersection.
pub do_and-Means :
    {p q : QueryResult} {m n : ℕ → Bool}
    → Means p m
    → Means q n
    → (r : QueryResult) × (do_and p q ≡ ok r) × Means r (λ a. m a && n a)
unfolding do_and
do_and-Means {p} l (all g h) = (p, ground arith, Means-ext (λ a. ground (arith, h a)) l)
do_and-Means {p} {q} (all e f) (just ids' e' rep' f') =
    (q, ground arith, just ids' e' rep' (λ a. ground (arith, f a, f' a)))
do_and-Means {p} (just ids e rep f) (just ids' e' rep' f') =
    let (t, done, new) = do_and-Represents rep rep' in
    (
      record p { results = t },
      ground arith,
      just (set_intersection ids' ids) e new (λ a.
          ground (arith, elem-set_intersection a 0 ids' ids rep'.is_run rep.is_run, f a, f' a)),
    )

-- What `is_empty` says.
pub is_empty-Means :
    {q : QueryResult} {m : ℕ → Bool} → Means q m → is_empty q ≡ true → (a : ℕ) → m a ≡ false
unfolding is_empty
is_empty-Means (all e f) h a = ground arith
is_empty-Means (just [] e rep f) h a = sym (f a)
is_empty-Means (just (x ∷ xs) e rep f) h a = ground (arith, empty-Represents rep)
