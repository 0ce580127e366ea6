-- ===== src/Dataset/Types.antt =====
-- The set of the types of the indexes of a dataset, as `OnDiskDataset::merge`
-- (libursa/OnDiskDataset.cpp) compares it.
use ursadb.Prelude.{
  ◌≡◌, refl, ap, ◌∙◌, Bool, true, false, ◌&&◌, ◌||◌, List, [], ◌∷◌, ◌==◌, arith, Bool-cases, inl,
  inr,
}
use ursadb.Core.{IndexType, gram3, text4, hash4, wide8, raw}
use ursadb.Dataset.Files.{type_of_test}
use ursadb.Dataset.State.{
  OnDiskDataset, types_to_query, types_among, all_types, index_types, same_types,
}
use ursadb.Index.File.{OnDiskIndex}

abbrev pub types_of : List OnDiskIndex → List IndexType
types_of [] = []
types_of (ndx ∷ indices) = ndx.ntype ∷ types_of indices

abbrev listed : List IndexType → IndexType → Bool
listed [] type = false
listed (t ∷ types) type = (raw t == raw type) || listed types type

types_to_query-listed :
    (indices : List OnDiskIndex) (type : IndexType)
    → types_to_query indices type ≡ listed (types_of indices) type
unfolding types_to_query
types_to_query-listed [] type = refl
types_to_query-listed (ndx ∷ indices) type =
    ap (λ b. (raw ndx.ntype == raw type) || b) (types_to_query-listed indices type)

listed-types_among :
    (indices : List OnDiskIndex) (types : List IndexType) (type : IndexType)
    → listed (types_among indices types) type ≡ (types_to_query indices type && listed types type)
unfolding types_among
listed-types_among indices [] type = ground arith
listed-types_among indices (t ∷ types) type = elim (Bool-cases (raw t == raw type)) [
  | inl same ↦
      let e = ap (types_to_query indices) (type_of_test t type same) in
      elim (Bool-cases (types_to_query indices t)) [
        | inl there ↦ rw there (ground (arith, e))
        | inr away ↦ rw away (ground (arith, e, listed-types_among indices types type))
      ]
  | inr other ↦ elim (Bool-cases (types_to_query indices t)) [
    | inl there ↦ rw there (ground (arith, listed-types_among indices types type))
    | inr away ↦ rw away (ground (arith, listed-types_among indices types type))
  ]
]

listed-all_types : (type : IndexType) → listed all_types type ≡ true
unfolding raw
listed-all_types gram3 = refl
listed-all_types text4 = refl
listed-all_types hash4 = refl
listed-all_types wide8 = refl

types_among-ext :
    (indices others : List OnDiskIndex) (types : List IndexType)
    → ((type : IndexType) → types_to_query indices type ≡ types_to_query others type)
    → types_among indices types ≡ types_among others types
unfolding types_among
types_among-ext indices others [] h = refl
types_among-ext indices others (type ∷ types) h = elim (Bool-cases (types_to_query others type)) [
  | inl there ↦ rw (h type, there) (ap (λ ts. type ∷ ts) (types_among-ext indices others types h))
  | inr away ↦ rw (h type, away) (types_among-ext indices others types h)
]

pub same_self : (ts : List IndexType) → same_types ts ts ≡ true
unfolding same_types
same_self [] = refl
same_self (t ∷ ts) = ground (arith, same_self ts)

-- Datasets that have indexes of the same types.
pub index_types-ext :
    (ds other : OnDiskDataset)
    → ((type : IndexType) → types_to_query ds.indices type ≡ types_to_query other.indices type)
    → index_types ds ≡ index_types other
unfolding index_types
index_types-ext ds other h = types_among-ext ds.indices other.indices all_types h

-- A dataset that has an index of each type of another one.
pub index_types-types_of :
    (ds other : OnDiskDataset)
    → types_of ds.indices ≡ index_types other
    → index_types ds ≡ index_types other
unfolding index_types
index_types-types_of ds other h = types_among-ext ds.indices other.indices all_types (λ type.
    types_to_query-listed ds.indices type
    ∙ ap (λ ts. listed ts type) h
    ∙ listed-types_among other.indices all_types type
    ∙ ground (arith, listed-all_types type))
