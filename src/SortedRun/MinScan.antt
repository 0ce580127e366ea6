-- ===== src/SortedRun/MinScan.antt =====
-- The search for the least head in `SortedRun::pick_common` (libursa/SortedRun.cpp): its index is
-- the first one of its value.
use ursadb.Prelude.{
  ℕ, zero, suc, ◌≤◌, ◌<◌, ◌≡◌, refl, sym, Bool, true, false, ◌||◌, List, [], ◌∷◌, ◌++◌, arith, ltb,
  ◌==◌, if◌then◌else◌, length, length-append, Bool-cases, inl, inr,
}
use mathlib.Core.Path.{subst}
use mathlib.Core.List.{append_assoc, append-nil}
use ursadb.SortedRun.Pick.{Head, min_scan}

-- The heads before `i` are above `m`.
abbrev pub AboveBefore : ℕ → ℕ → List Head → Type 0
AboveBefore zero m heads = Unit
AboveBefore (suc i) m [] = Unit
AboveBefore (suc i) m ((v, r) ∷ heads) = (m < v) × AboveBefore i m heads

abbrev pub AtLeast : ℕ → List Head → Type 0
AtLeast m [] = Unit
AtLeast m ((v, r) ∷ heads) = (m ≤ v) × AtLeast m heads

-- Some head stands on `m`.
abbrev pub stands : ℕ → List Head → Bool
stands m [] = false
stands m ((v, r) ∷ heads) = (v == m) || stands m heads

pub record IsLeast (i m : ℕ) (heads : List Head) : Type 0 where
  pub first : AboveBefore i m heads
  pub least : AtLeast m heads
  pub found : stands m heads ≡ true

-- One more head behind those that were looked at.
module _ (m v : ℕ) (r : List ℕ) where
  AboveBefore-snoc :
      (i : ℕ) (ps : List Head)
      → i < length ps
      → AboveBefore i m ps
      → AboveBefore i m (ps ++ ((v, r) ∷ []))
  AboveBefore-snoc zero ps h a = tt
  AboveBefore-snoc (suc i) [] h a = absurd (omega arith)
  AboveBefore-snoc (suc i) ((u, s) ∷ ps) h a = (a.0, AboveBefore-snoc i ps (omega arith) a.1)

  AboveBefore-all :
      (ps : List Head) → v < m → AtLeast m ps → AboveBefore (length ps) v (ps ++ ((v, r) ∷ []))
  AboveBefore-all [] h a = tt
  AboveBefore-all ((u, s) ∷ ps) h a = (omega arith, AboveBefore-all ps h a.1)

  AtLeast-snoc : (ps : List Head) → m ≤ v → AtLeast m ps → AtLeast m (ps ++ ((v, r) ∷ []))
  AtLeast-snoc [] h a = (h, tt)
  AtLeast-snoc ((u, s) ∷ ps) h a = (a.0, AtLeast-snoc ps h a.1)

  AtLeast-lower : (ps : List Head) → v < m → AtLeast m ps → AtLeast v (ps ++ ((v, r) ∷ []))
  AtLeast-lower [] h a = omega arith
  AtLeast-lower ((u, s) ∷ ps) h a = (omega arith, AtLeast-lower ps h a.1)

  stands-snoc : (ps : List Head) → stands m ps ≡ true → stands m (ps ++ ((v, r) ∷ [])) ≡ true
  stands-snoc [] h = cc
  stands-snoc ((u, s) ∷ ps) h = ground (arith, stands-snoc ps)

  stands-snoc_self : (ps : List Head) → stands v (ps ++ ((v, r) ∷ [])) ≡ true
  stands-snoc_self [] = ground arith
  stands-snoc_self ((u, s) ∷ ps) = ground (arith, stands-snoc_self ps)

abbrev Scanned : ℕ × ℕ → List Head → Type 0
Scanned p heads = IsLeast p.0 p.1 heads

-- The head under the scan is taken for the least, if it is.
IsLeast-snoc :
    (v : ℕ) (r : List ℕ) (ps : List Head) (i mi m : ℕ)
    → i ≡ length ps
    → mi < i
    → IsLeast mi m ps
    → IsLeast (if ltb v m then i else mi) (if ltb v m then v else m) (ps ++ ((v, r) ∷ []))
IsLeast-snoc v r ps i mi m e h l = elim (Bool-cases (ltb v m)) [
  | inl smaller ↦
      rw (smaller, e)
        (record {
          first = AboveBefore-all m v r ps (ground arith) l.least;
          least = AtLeast-lower m v r ps (ground arith) l.least;
          found = stands-snoc_self m v r ps;
        })
  | inr larger ↦ rw larger (record {
    first = AboveBefore-snoc m v r mi ps (omega arith) l.first;
    least = AtLeast-snoc m v r ps (ground arith) l.least;
    found = stands-snoc m v r ps l.found;
  })
]

min_scan-IsLeast :
    (heads ps : List Head) (i min_index min_id : ℕ)
    → i ≡ length ps
    → min_index < i
    → IsLeast min_index min_id ps
    → Scanned (min_scan i min_index min_id heads) (ps ++ heads)
unfolding min_scan
min_scan-IsLeast [] ps i mi m e h l = subst (IsLeast mi m) (sym (append-nil ps)) l
min_scan-IsLeast ((v, r) ∷ heads) ps i mi m e h l =
    subst (Scanned (min_scan (suc i) mi' m' heads)) (append_assoc ps ((v, r) ∷ []) heads) (
      min_scan-IsLeast heads (ps ++ ((v, r) ∷ [])) (suc i) mi' m'
        (omega (arith, length-append ps ((v, r) ∷ []))) (ground arith)
        (IsLeast-snoc v r ps i mi m e h l))
  where
    mi' : ℕ
    mi' = if ltb v m then i else mi

    m' : ℕ
    m' = if ltb v m then v else m

-- What `pick_common` finds before it counts.
pub min_scan_lem : (h : Head) (heads : List Head) → Scanned (min_scan 1 0 h.0 heads) (h ∷ heads)
min_scan_lem (v, r) heads =
    min_scan-IsLeast heads ((v, r) ∷ []) 1 0 v refl (omega arith)
      (record { first = tt; least = omega arith; found = ground arith })
