-- ===== src/Tests/Runs.antt =====
-- libursa/SortedRun.cpp, libursa/QueryResult.cpp and libursa/Core.h at concrete values.
use ursadb.Prelude.{ℕ, ◌≡◌, refl, Bool, true, ◌&&◌, List, [], ◌∷◌, arith, leb, elem, ok}
use ursadb.SortedRun.Runs.{SortedRun, of_sequence}
use ursadb.SortedRun.Pick.{pick_common}
use ursadb.SortedRun.Represents.{Represents, of_sequence-Represents}
use ursadb.SortedRun.Common.{count_in, pick_common-Represents}
use ursadb.QueryResult.Ops.{QueryResult, everything, of_results, do_min_of}
use ursadb.QueryResult.Ops
use ursadb.QueryResult.Sets.{Means, just, everything-Means, do_and-Means}
use ursadb.QueryResult.MinOf.{count_true, do_min_of-Means}

abbrev one_five : SortedRun
one_five = of_sequence (1 ∷ 5 ∷ [])

one_five-Represents : Represents one_five (1 ∷ 5 ∷ [])
one_five-Represents =
    of_sequence-Represents (1 ∷ 5 ∷ []) (omega arith, (omega arith, tt))
      (omega arith, (omega arith, tt))

abbrev two_five : SortedRun
two_five = of_sequence (2 ∷ 5 ∷ [])

two_five-Represents : Represents two_five (2 ∷ 5 ∷ [])
two_five-Represents =
    of_sequence-Represents (2 ∷ 5 ∷ []) (omega arith, (omega arith, tt))
      (omega arith, (omega arith, tt))

abbrev both_lists : List (List ℕ)
both_lists = (1 ∷ 5 ∷ []) ∷ (2 ∷ 5 ∷ []) ∷ []

pick_common-Represents_example :
    (t : SortedRun) × (ids : List ℕ) × (pick_common 2 (one_five ∷ two_five ∷ []) ≡ ok t)
    × Represents t ids
    × ((a : ℕ) → elem a ids ≡ leb 2 (count_in a both_lists))
pick_common-Represents_example =
    pick_common-Represents 2 (one_five ∷ two_five ∷ []) both_lists (omega arith)
      (one_five-Represents, (two_five-Represents, tt))

abbrev in_one_five : ℕ → Bool
in_one_five a = elem a (1 ∷ 5 ∷ [])

one_five-Means : Means (of_results one_five) in_one_five
one_five-Means = just (1 ∷ 5 ∷ []) refl one_five-Represents (λ a. refl)

do_and-Means_example :
    (r : QueryResult) × (Ops.do_and (of_results one_five) everything ≡ ok r)
    × Means r (λ a. in_one_five a && true)
do_and-Means_example = do_and-Means one_five-Means everything-Means

do_min_of-Means_example :
    (r : QueryResult) × (do_min_of 2 (of_results one_five ∷ everything ∷ []) ≡ ok r)
    × Means r (λ a. leb 2 (count_true a (in_one_five ∷ (λ _. true) ∷ [])))
do_min_of-Means_example =
    do_min_of-Means 2 (of_results one_five ∷ everything ∷ []) (in_one_five ∷ (λ _. true) ∷ [])
      (one_five-Means, (everything-Means, tt))
