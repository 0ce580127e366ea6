-- ===== src/SortedRun/Common.antt =====
-- `SortedRun::pick_common` (libursa/SortedRun.cpp) on sources in either representation.
use ursadb.Prelude.{
  ℕ, suc, ◌+◌, ◌<◌, ◌≡◌, refl, ap, ◌∙◌, true, List, [], ◌∷◌, arith, leb, if◌then◌else◌, ok, All,
  IsRun, IsU32, elem,
}
use ursadb.SortedRun.Runs.{SortedRun, of_sequence, empty}
use ursadb.SortedRun.Pick.{Head, head_of, open_heads, total, pick_common}
use ursadb.SortedRun.Threshold.{holders, HeadsFrom, pick_loop-Picked}
use ursadb.SortedRun.Represents.{
  Represents, of_sequence-Represents, decompress-Represents, range-of_sequence,
}

-- Source by source.
abbrev pub AllRepresent : List SortedRun → List (List ℕ) → Type 0
AllRepresent [] [] = Unit
AllRepresent (r ∷ rs) (ids ∷ idss) = Represents r ids × AllRepresent rs idss
AllRepresent _ _ = ⊥

-- In how many of the lists an id is.
abbrev pub count_in : ℕ → List (List ℕ) → ℕ
count_in a [] = 0
count_in a (ids ∷ idss) = (if elem a ids then 1 else 0) + count_in a idss

pub All-of_elem : (ids : List ℕ) → ((a : ℕ) → elem a ids ≡ true → IsU32 a) → All IsU32 ids
All-of_elem [] h = tt
All-of_elem (x ∷ xs) h = (h x (ground arith), All-of_elem xs (λ a e. h a (ground arith)))

IsU32-of_elem : (a : ℕ) (ids : List ℕ) → All IsU32 ids → elem a ids ≡ true → IsU32 a
IsU32-of_elem a [] h e = cc
IsU32-of_elem a (x ∷ xs) h e = ground (arith, IsU32-of_elem a xs h.1)

IsU32-of_count :
    (a : ℕ) (rs : List SortedRun) (idss : List (List ℕ))
    → AllRepresent rs idss
    → 0 < count_in a idss
    → IsU32 a
IsU32-of_count a [] [] rep h = absurd (omega arith)
IsU32-of_count a [] (ids ∷ idss) rep h = elim rep [ ]
IsU32-of_count a (r ∷ rs) [] rep h = elim rep [ ]
IsU32-of_count a (r ∷ rs) (ids ∷ idss) rep h =
    ground (arith, IsU32-of_elem a ids (rep.0).fits, IsU32-of_count a rs idss rep.1)

-- The ranges that the first loop collects.
record Opened (heads : List Head) (idss : List (List ℕ)) : Type 0 where
  from : HeadsFrom 0 heads
  held : (a : ℕ) → holders a heads ≡ count_in a idss

Opened-cons :
    (ids : List ℕ) (heads : List Head) (idss : List (List ℕ))
    → IsRun ids
    → Opened heads idss
    → Opened (head_of ids heads) (ids ∷ idss)
Opened-cons [] heads idss r o = record { from = o.from; held = λ a. omega (arith, o.held a) }
Opened-cons (x ∷ xs) heads idss r o = record {
  from = (r, o.from);
  held = λ a. omega (arith, o.held a);
}

head_of_nonempty :
    (ids : List ℕ) (heads : List Head)
    → (if empty (of_sequence ids) then heads else head_of ids heads) ≡ head_of ids heads
unfolding empty
head_of_nonempty [] heads = refl
head_of_nonempty (x ∷ xs) heads = refl

open_step :
    (r : SortedRun) (rs : List SortedRun) (ids : List ℕ) (heads : List Head)
    → Represents r ids
    → open_heads rs ≡ ok heads
    → open_heads (r ∷ rs) ≡ ok (head_of ids heads)
unfolding open_heads
open_step r rs ids heads rep e =
    rw (decompress-Represents rep, range-of_sequence, e) (ap ok (head_of_nonempty ids heads))

open_heads-Opened :
    (rs : List SortedRun) (idss : List (List ℕ))
    → AllRepresent rs idss
    → (heads : List Head) × (open_heads rs ≡ ok heads) × Opened heads idss
open_heads-Opened [] [] rep =
    ([], unfold open_heads in refl, record { from = tt; held = λ a. refl })
open_heads-Opened [] (ids ∷ idss) rep = elim rep [ ]
open_heads-Opened (r ∷ rs) [] rep = elim rep [ ]
open_heads-Opened (r ∷ rs) (ids ∷ idss) rep =
    let (heads, e, o) = open_heads-Opened rs idss rep.1 in
    (
      head_of ids heads,
      open_step r rs ids heads rep.0 e,
      Opened-cons ids heads idss (rep.0).is_run o,
    )

-- `pick_common` never throws for a positive cutoff, and gives the ids that are in at least
-- `cutoff` of the sources.
pub pick_common-Represents :
    (cutoff : ℕ) (sources : List SortedRun) (idss : List (List ℕ))
    → 0 < cutoff
    → AllRepresent sources idss
    → (t : SortedRun) × (ids : List ℕ) × (pick_common cutoff sources ≡ ok t)
      × Represents t ids
      × ((a : ℕ) → elem a ids ≡ leb cutoff (count_in a idss))
unfolding pick_common
pick_common-Represents cutoff sources idss pos rep =
    let (heads, opened, o) = open_heads-Opened sources idss rep in
    let (result, done, picked) =
      pick_loop-Picked (suc (total heads)) 0 cutoff heads pos (omega arith) o.from in
    let counts : (a : ℕ) → elem a result ≡ leb cutoff (count_in a idss) =
      λ a. picked.1 a ∙ ap (leb cutoff) (o.held a) in
    (
      of_sequence result,
      result,
      rw (opened) (rw done),
      of_sequence-Represents result picked.0 (
          All-of_elem result (λ a e. IsU32-of_count a sources idss rep (ground (arith, counts a)))),
      counts,
    )
