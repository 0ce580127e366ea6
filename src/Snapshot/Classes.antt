-- ===== src/Snapshot/Classes.antt =====
-- The key of `get_compatible_datasets` (libursa/OnDiskDataset.cpp): it tells which taints a dataset
-- has, and which types of indexes.
use ursadb.Prelude.{
  ◌≡◌, refl, sym, ap, ◌∙◌, false, ◌||◌, List, [], ◌∷◌, ◌==◌, arith, Bool-cases, inl, inr,
}
use Prim.Native.String.{String, compare}
use Prim.Native.String.{◌++◌ as ◌append◌}
use text.Mathlib.Text.{◌==◌ as str_eq}
use text.Mathlib.TextEquality.{eq_iff, path_by_compare}
use text.Mathlib.TextLemmas.{append_cancel_left, append_assoc, append_inj}
use ursadb.Core.{IndexType, gram3, text4, hash4, wide8, raw, get_index_type_name}
use ursadb.Database.Datasets.{contains_name}
use ursadb.Dataset.State.{OnDiskDataset, types_to_query, index_types}
use ursadb.Dataset.Types.{index_types-ext}
use ursadb.Index.File.{OnDiskIndex}
use ursadb.Snapshot.Compatible.{set_insert, insert_taints, insert_types, class_of}
use ursadb.Snapshot.Groups.{Ordering-cases}

contains_name-set_insert :
    (value name : String) (set : List String)
    → contains_name (set_insert value set) name ≡ (str_eq value name || contains_name set name)
unfolding set_insert contains_name
contains_name-set_insert value name [] = ground arith
contains_name-set_insert value name (first ∷ set) = elim (Ordering-cases (compare value first)) [
  | inl less ↦ rw (less, set_insert) (ground arith)
  | inr (inl same) ↦
      let e = ap (λ s. str_eq s name) (path_by_compare value first same) in
      rw (same, set_insert) (ground (arith, e))
  | inr (inr more) ↦ rw (more, set_insert) (ground (arith, contains_name-set_insert value name set))
]

str_eq-append : (tag s t : String) → str_eq (tag append s) (tag append t) ≡ str_eq s t
str_eq-append tag s t = elim (Bool-cases (str_eq s t)) [
  | inl same ↦
      (eq_iff (tag append s) (tag append t)).1 (ap (λ x. tag append x) ((eq_iff s t).0 same))
      ∙ sym same
  | inr other ↦ elim (Bool-cases (str_eq (tag append s) (tag append t))) [
    | inr differ ↦ differ ∙ sym other
    | inl both ↦
        let e = append_cancel_left tag s t ((eq_iff (tag append s) (tag append t)).0 both) in
        absurd (let same = (eq_iff s t).1 e in cc)
  ]
]

tags_differ : (s t : String) → str_eq ("taint:" append s) ("type:" append t) ≡ false
tags_differ s t = elim (Bool-cases (str_eq ("taint:" append s) ("type:" append t))) [
  | inr differ ↦ differ
  | inl same ↦
      let e : ("ta" append ("int:" append s)) ≡ ("ty" append ("pe:" append t)) =
        sym (append_assoc "ta" "int:" s)
        ∙ (eq_iff ("taint:" append s) ("type:" append t)).0 same
        ∙ append_assoc "ty" "pe:" t in
      let (heads, rest) = append_inj e refl in absurd (let both = (eq_iff "ta" "ty").1 heads in cc)
]

str_eq-sym : (s t : String) → str_eq s t ≡ false → str_eq t s ≡ false
str_eq-sym s t h = elim (Bool-cases (str_eq t s)) [
  | inr other ↦ other
  | inl same ↦ absurd (let both = (eq_iff s t).1 (sym ((eq_iff t s).0 same)) in cc)
]

str_eq-name :
    (type other : IndexType)
    → str_eq (get_index_type_name type) (get_index_type_name other) ≡ (raw type == raw other)
unfolding get_index_type_name raw
str_eq-name gram3 gram3 = refl
str_eq-name gram3 text4 = refl
str_eq-name gram3 hash4 = refl
str_eq-name gram3 wide8 = refl
str_eq-name text4 gram3 = refl
str_eq-name text4 text4 = refl
str_eq-name text4 hash4 = refl
str_eq-name text4 wide8 = refl
str_eq-name hash4 gram3 = refl
str_eq-name hash4 text4 = refl
str_eq-name hash4 hash4 = refl
str_eq-name hash4 wide8 = refl
str_eq-name wide8 gram3 = refl
str_eq-name wide8 text4 = refl
str_eq-name wide8 hash4 = refl
str_eq-name wide8 wide8 = refl

-- Adding the taints.
taints-taint :
    (taints set : List String) (t : String)
    → contains_name (insert_taints taints set) ("taint:" append t)
      ≡ (contains_name taints t || contains_name set ("taint:" append t))
unfolding insert_taints contains_name
taints-taint [] set t = refl
taints-taint (first ∷ taints) set t =
    let rest = taints-taint taints (set_insert ("taint:" append first) set) t in
    let here = contains_name-set_insert ("taint:" append first) ("taint:" append t) set in
    let e = str_eq-append "taint:" first t in rest ∙ ground (arith, here, e)

taints-type :
    (taints set : List String) (t : String)
    → contains_name (insert_taints taints set) ("type:" append t)
      ≡ contains_name set ("type:" append t)
unfolding insert_taints
taints-type [] set t = refl
taints-type (first ∷ taints) set t =
    let rest = taints-type taints (set_insert ("taint:" append first) set) t in
    let here = contains_name-set_insert ("taint:" append first) ("type:" append t) set in
    let e = tags_differ first t in rest ∙ ground (arith, here, e)

-- Adding the types.
types-taint :
    (indices : List OnDiskIndex) (set : List String) (t : String)
    → contains_name (insert_types indices set) ("taint:" append t)
      ≡ contains_name set ("taint:" append t)
unfolding insert_types
types-taint [] set t = refl
types-taint (ndx ∷ indices) set t =
    let name = get_index_type_name ndx.ntype in
    let rest = types-taint indices (set_insert ("type:" append name) set) t in
    let here = contains_name-set_insert ("type:" append name) ("taint:" append t) set in
    let e = str_eq-sym ("taint:" append t) ("type:" append name) (tags_differ t name) in
    rest ∙ ground (arith, here, e)

types-type :
    (indices : List OnDiskIndex) (set : List String) (type : IndexType)
    → contains_name (insert_types indices set) ("type:" append get_index_type_name type)
      ≡ (types_to_query indices type || contains_name set ("type:" append get_index_type_name type))
unfolding insert_types types_to_query
types-type [] set type = refl
types-type (ndx ∷ indices) set type =
    let name = get_index_type_name ndx.ntype in
    let rest = types-type indices (set_insert ("type:" append name) set) type in
    let here =
      contains_name-set_insert ("type:" append name) ("type:" append get_index_type_name type)
        set in
    let e = str_eq-append "type:" name (get_index_type_name type) in
    let f = str_eq-name ndx.ntype type in rest ∙ ground (arith, here, e, f)

class_of-taint :
    (ds : OnDiskDataset) (t : String)
    → contains_name (class_of ds) ("taint:" append t) ≡ contains_name ds.taints t
unfolding class_of contains_name
class_of-taint ds t =
    let added = taints-taint ds.taints [] t in
    types-taint ds.indices (insert_taints ds.taints []) t ∙ ground (arith, added)

class_of-type :
    (ds : OnDiskDataset) (type : IndexType)
    → contains_name (class_of ds) ("type:" append get_index_type_name type)
      ≡ types_to_query ds.indices type
unfolding class_of contains_name
class_of-type ds type =
    let before = taints-type ds.taints [] (get_index_type_name type) in
    types-type ds.indices (insert_taints ds.taints []) type ∙ ground (arith, before)

-- Datasets with the same key.
pub class_of-taints :
    (ds other : OnDiskDataset) (t : String)
    → class_of ds ≡ class_of other
    → contains_name ds.taints t ≡ contains_name other.taints t
class_of-taints ds other t h =
    sym (class_of-taint ds t)
    ∙ ap (λ set. contains_name set ("taint:" append t)) h
    ∙ class_of-taint other t

pub class_of-types :
    (ds other : OnDiskDataset) → class_of ds ≡ class_of other → index_types ds ≡ index_types other
class_of-types ds other h = index_types-ext ds other (λ type.
    sym (class_of-type ds type)
    ∙ ap (λ set. contains_name set ("type:" append get_index_type_name type)) h
    ∙ class_of-type other type)
