-- ===== src/Core.antt =====
-- libursa/Core.h and libursa/Core.cpp: the four index types.
use ursadb.Prelude.{
  ◌≡◌, refl, arith, Bool-cases, inl, inr, ℕ, Bool, true, Option, none, some, if◌then◌else◌, ◌==◌,
}
use Prim.Native.String.{String}
use text.Mathlib.Text.{◌==◌ as str_eq}

pub data IndexType : Type 0 where
  gram3 text4 hash4 wide8 : IndexType

-- The enumerator's value.
unfoldable pub raw : IndexType → ℕ
raw gram3 = 1
raw text4 = 2
raw hash4 = 3
raw wide8 = 4

-- A `TriGram` is below this number.
abbrev pub num_trigrams : ℕ
num_trigrams = 16777216

abbrev pub db_magic : ℕ
db_magic = 0xCA7DA7A

abbrev pub indexer_compact_threshold : ℕ
indexer_compact_threshold = 20

-- `switch (static_cast<IndexType>(type))`.
unfoldable pub is_valid_index_type : ℕ → Bool
unfolding raw
is_valid_index_type type =
    if type == raw gram3
    then true
    else if type == raw text4
    then true
    else if type == raw hash4
    then true
    else type == raw wide8

unfoldable pub get_index_type_name : IndexType → String
get_index_type_name gram3 = "gram3"
get_index_type_name text4 = "text4"
get_index_type_name hash4 = "hash4"
get_index_type_name wide8 = "wide8"

unfoldable pub index_type_from_string : String → Option IndexType
index_type_from_string type =
    if str_eq type "gram3"
    then some gram3
    else if str_eq type "text4"
    then some text4
    else if str_eq type "hash4"
    then some hash4
    else if str_eq type "wide8"
    then some wide8
    else none

raw-valid : (n : ℕ) → is_valid_index_type n ≡ true → (t : IndexType) × (raw t ≡ n)
unfolding is_valid_index_type raw
raw-valid n h = elim (Bool-cases (n == 1)) [
  | inl one ↦ (gram3, ground arith)
  | inr not_one ↦ elim (Bool-cases (n == 2)) [
    | inl two ↦ (text4, ground arith)
    | inr not_two ↦ elim (Bool-cases (n == 3)) [
      | inl three ↦ (hash4, ground arith)
      | inr not_three ↦ (wide8, ground arith)
    ]
  ]
]

from_string-name : (t : IndexType) → index_type_from_string (get_index_type_name t) ≡ some t
unfolding index_type_from_string get_index_type_name
from_string-name gram3 = refl
from_string-name text4 = refl
from_string-name hash4 = refl
from_string-name wide8 = refl

-- A number that is a valid index type is the number of an index type, whose name is read back.
pub is_valid_index_type-name :
    (n : ℕ)
    → is_valid_index_type n ≡ true
    → (t : IndexType) × (raw t ≡ n) × (index_type_from_string (get_index_type_name t) ≡ some t)
is_valid_index_type-name n h = let (t, e) = raw-valid n h in (t, e, from_string-name t)
