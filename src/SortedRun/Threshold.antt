-- ===== src/SortedRun/Threshold.antt =====
-- `SortedRun::pick_common` (libursa/SortedRun.cpp) finds the ids that enough sources have.
use ursadb.Prelude.{
  ℕ, zero, suc, ◌+◌, ◌≤◌, ◌<◌, ◌≡◌, ◌≢◌, refl, ◌∙◌, true, List, [], ◌∷◌, arith, leb, if◌then◌else◌,
  length, ok, ◌>>=◌, IsRunFrom, IsRunFrom-weaken, elem, elem_below, inl, inr, Bool-cases,
}
use ursadb.SortedRun.MinScan.{AboveBefore, AtLeast, stands, min_scan_lem}
use native.Mathlib.Decide.{ℕ_discrete}
use ursadb.SortedRun.Pick.{Head, min_scan, take_min, take_from, pick_loop, total}

-- How many heads have `a`.
abbrev pub holders : ℕ → List Head → ℕ
holders a [] = 0
holders a ((v, r) ∷ heads) = (if elem a (v ∷ r) then 1 else 0) + holders a heads

-- All heads are runs that start at `lo` or above.
abbrev pub HeadsFrom : ℕ → List Head → Type 0
HeadsFrom lo [] = Unit
HeadsFrom lo ((v, r) ∷ heads) = IsRunFrom lo (v ∷ r) × HeadsFrom lo heads

holders-le-length : (a : ℕ) (heads : List Head) → holders a heads ≤ length heads
holders-le-length a [] = omega arith
holders-le-length a ((v, r) ∷ heads) = ground (arith, holders-le-length a heads)

holders_below : (a lo : ℕ) (heads : List Head) → a < lo → HeadsFrom lo heads → holders a heads ≡ 0
holders_below a lo [] h r = refl
holders_below a lo ((v, r) ∷ heads) h f =
    ground (arith, elem_below a lo (v ∷ r) h f.0, holders_below a lo heads h f.1)

-- What one round leaves.
module _ (m : ℕ) where
  take_min-HeadsFrom :
      (heads : List Head) → HeadsFrom m heads → HeadsFrom (suc m) (take_min m heads).1
  unfolding take_min
  take_min-HeadsFrom [] f = tt
  take_min-HeadsFrom ((v, []) ∷ heads) f = ground (arith, take_min-HeadsFrom heads)
  take_min-HeadsFrom ((v, x ∷ r) ∷ heads) f = ground (arith, take_min-HeadsFrom heads)

  take_min-total :
      (heads : List Head) → total (take_min m heads).1 + (take_min m heads).0 ≡ total heads
  unfolding take_min
  take_min-total [] = refl
  take_min-total ((v, []) ∷ heads) = ground (arith, take_min-total heads)
  take_min-total ((v, x ∷ r) ∷ heads) = ground (arith, take_min-total heads)

  take_min-holders_self :
      (heads : List Head) → HeadsFrom m heads → (take_min m heads).0 ≡ holders m heads
  unfolding take_min
  take_min-holders_self [] f = refl
  take_min-holders_self ((v, r) ∷ heads) f =
      ground (arith, take_min-holders_self heads f.1, elem_below m (suc v) r)

  take_min-holders_ne :
      (a : ℕ) (heads : List Head) → a ≢ m → holders a (take_min m heads).1 ≡ holders a heads
  unfolding take_min
  take_min-holders_ne a [] h = refl
  take_min-holders_ne a ((v, []) ∷ heads) h = ground (arith, take_min-holders_ne a heads)
  take_min-holders_ne a ((v, x ∷ r) ∷ heads) h = ground (arith, take_min-holders_ne a heads)

-- Starting at the first head that holds the minimum makes no difference.
take_from-take_min :
    (i m : ℕ) (heads : List Head) → AboveBefore i m heads → take_from i m heads ≡ take_min m heads
unfolding take_from
take_from-take_min zero m heads b = refl
take_from-take_min (suc i) m [] b = refl
take_from-take_min (suc i) m ((v, r) ∷ heads) b = ground (arith, take_from-take_min i m heads b.1)

-- The least head bounds all runs from below.
HeadsFrom-AtLeast :
    (lo m : ℕ) (heads : List Head) → HeadsFrom lo heads → AtLeast m heads → HeadsFrom m heads
HeadsFrom-AtLeast lo m [] f a = tt
HeadsFrom-AtLeast lo m ((v, r) ∷ heads) f a = ((a.0, f.0.1), HeadsFrom-AtLeast lo m heads f.1 a.1)

HeadsFrom-le : (lo m : ℕ) (heads : List Head) → HeadsFrom lo heads → stands m heads ≡ true → lo ≤ m
HeadsFrom-le lo m [] f h = cc
HeadsFrom-le lo m ((v, r) ∷ heads) f h = ground (arith, HeadsFrom-le lo m heads f.1)

-- A round takes an element.
take_min-pos : (m : ℕ) (heads : List Head) → stands m heads ≡ true → 0 < (take_min m heads).0
unfolding take_min
take_min-pos m [] h = cc
take_min-pos m ((v, r) ∷ heads) h = ground (arith, take_min-pos m heads)

-- What the loop gives: the ids that at least `cutoff` heads have, in order.
abbrev pub Picked : ℕ → ℕ → List Head → List ℕ → Type 0
Picked lo cutoff heads result =
    IsRunFrom lo result × ((a : ℕ) → elem a result ≡ leb cutoff (holders a heads))

-- One round, from what the later ones give.
Picked-round :
    (lo cutoff m : ℕ) (heads : List Head) (result : List ℕ)
    → 0 < cutoff
    → lo ≤ m
    → HeadsFrom m heads
    → Picked (suc m) cutoff (take_min m heads).1 result
    → Picked lo cutoff heads (if leb cutoff (take_min m heads).0 then m ∷ result else result)
Picked-round lo cutoff m heads result pos le from later = (in_order, counted)
  where
    left : HeadsFrom (suc m) (take_min m heads).1
    left = take_min-HeadsFrom m heads from

    in_order : IsRunFrom lo (if leb cutoff (take_min m heads).0 then m ∷ result else result)
    in_order = elim (Bool-cases (leb cutoff (take_min m heads).0)) [
      | inl e ↦ rw e (le, later.0)
      | inr e ↦ rw e (IsRunFrom-weaken lo (suc m) result (omega arith) later.0)
    ]

    counted :
        (a : ℕ)
        → elem a (if leb cutoff (take_min m heads).0 then m ∷ result else result)
          ≡ leb cutoff (holders a heads)
    counted a = elim (ℕ_discrete a m) [
      | yes e ↦ rw e (
          ground (
            arith,
            later.1 m,
            take_min-holders_self m heads from,
            holders_below m (suc m) (take_min m heads).1 (omega arith) left,
          ))
      | no n ↦ ground (arith, later.1 a, take_min-holders_ne m a heads n)
    ]

pick_loop_step :
    (fuel cutoff : ℕ) (h : Head) (hs : List Head)
    → leb cutoff (length (h ∷ hs)) ≡ true
    → let m = (min_scan 1 0 h.0 hs).1 in
      pick_loop (suc fuel) cutoff (h ∷ hs) ≡ (
        pick_loop fuel cutoff (take_min m (h ∷ hs)).1 >>= λ result.
        ok (if leb cutoff (take_min m (h ∷ hs)).0 then m ∷ result else result))
unfolding pick_loop
pick_loop_step fuel cutoff h hs e = rw (
  e,
  pick_loop,
  take_from-take_min (min_scan 1 0 h.0 hs).0 (min_scan 1 0 h.0 hs).1 (h ∷ hs)
      (min_scan_lem h hs).first,
)

-- Enough fuel gives the result, and the result is right.
pub pick_loop-Picked :
    (fuel lo cutoff : ℕ) (heads : List Head)
    → 0 < cutoff
    → total heads < fuel
    → HeadsFrom lo heads
    → (result : List ℕ) × (pick_loop fuel cutoff heads ≡ ok result) × Picked lo cutoff heads result
pick_loop-Picked zero lo cutoff heads pos enough from = absurd (omega arith)
pick_loop-Picked (suc fuel) lo cutoff [] pos enough from =
    ([], unfold pick_loop in ground arith, (tt, λ a. ground arith))
pick_loop-Picked (suc fuel) lo cutoff (h ∷ hs) pos enough from =
    elim (Bool-cases (leb cutoff (length (h ∷ hs)))) [
      | inl e ↦
          let m = (min_scan 1 0 h.0 hs).1 in
          let least = min_scan_lem h hs in
          let all = HeadsFrom-AtLeast lo m (h ∷ hs) from least.least in
          let (result, done, picked) =
            pick_loop-Picked fuel (suc m) cutoff (take_min m (h ∷ hs)).1 pos
              (omega (arith, take_min-total m (h ∷ hs), take_min-pos m (h ∷ hs) least.found))
              (take_min-HeadsFrom m (h ∷ hs) all) in
          (
            (if leb cutoff (take_min m (h ∷ hs)).0 then m ∷ result else result),
            pick_loop_step fuel cutoff h hs e ∙ rw done,
            Picked-round lo cutoff m (h ∷ hs) result pos
                (HeadsFrom-le lo m (h ∷ hs) from least.found) all picked,
          )
      | inr e ↦ (
        [],
        unfold pick_loop in rw (e, pick_loop),
        (tt, λ a. ground (arith, holders-le-length a (h ∷ hs))),
      )
    ]
