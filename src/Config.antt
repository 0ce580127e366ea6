-- ===== src/Config.antt =====
-- libursa/DatabaseConfig.h and libursa/DatabaseConfig.cpp: the configuration of a database. The JSON
-- object is the list of its pairs; a name that is set anew is put in front of its old value.
use ursadb.Prelude.{
  ℕ, ◌*◌, ◌≤◌, ◌<◌, ◌⊎◌, ◌≡◌, refl, Bool, true, false, List, [], ◌∷◌, arith, ltb, if◌then◌else◌,
  Option, none, some, Result, ok, err, guard, ◌>>◌, invalid_config_value, Bool-cases, inl, inr, sym,
  ap, ◌∙◌,
}
use mathlib.Core.Path.{subst}
use Prim.Native.String.{String}
use text.Mathlib.Text.{◌==◌ as str_eq}
use text.Mathlib.TextEquality.{eq_iff}

pub record ConfigKey : Type 0 where
  pub key : String
  pub defval : ℕ
  pub min : ℕ
  pub max : ℕ

abbrev pub config_key : String → ℕ → ℕ → ℕ → ConfigKey
config_key key defval min max = record { key = key; defval = defval; min = min; max = max }

abbrev pub query_max_edge : ConfigKey
query_max_edge = config_key "query_max_edge" 2 1 255

abbrev pub query_max_ngram : ConfigKey
query_max_ngram = config_key "query_max_ngram" 16 1 16777215

abbrev pub iterator_gc_seconds : ConfigKey
iterator_gc_seconds = config_key "iterator_gc_seconds" (60 * 60 * 24) 0 4294967295

abbrev pub database_workers : ConfigKey
database_workers = config_key "database_workers" 4 1 1024

abbrev pub merge_max_datasets : ConfigKey
merge_max_datasets = config_key "merge_max_datasets" 10 1 1024

abbrev pub merge_max_files : ConfigKey
merge_max_files = config_key "merge_max_files" (2 * 1024 * 1024) 1 4294967295

abbrev pub available : List ConfigKey
available =
    query_max_edge ∷ query_max_ngram ∷ database_workers ∷ merge_max_datasets ∷ merge_max_files
    ∷ iterator_gc_seconds ∷ []

unfoldable pub parse_among : List ConfigKey → String → Option ConfigKey
parse_among [] value = none
parse_among (opt ∷ opts) value = if str_eq opt.key value then some opt else parse_among opts value

unfoldable pub parse : String → Option ConfigKey
unfolding parse_among
parse value = parse_among available value

abbrev pub Settings : Type 0
Settings = List (String × ℕ)

unfoldable pub get : Settings → ConfigKey → ℕ
get [] key = key.defval
get ((name, value) ∷ config) key = if str_eq name key.key then value else get config key

unfoldable pub can_set : ConfigKey → ℕ → Bool
can_set key value = if ltb value key.min then false else if ltb key.max value then false else true

unfoldable pub set : Settings → ConfigKey → ℕ → Result Settings
unfolding can_set
set config key value = do
  guard (can_set key value) invalid_config_value
  ok ((key.key, value) ∷ config)

unfoldable pub get_among : Settings → List ConfigKey → Settings
unfolding get
get_among config [] = []
get_among config (key ∷ keys) = (key.key, get config key) ∷ get_among config keys

unfoldable pub get_all : Settings → Settings
unfolding get_among
get_all config = get_among config available

abbrev pub InRange : ConfigKey → ℕ → Type 0
InRange key value = (key.min ≤ value) × (value ≤ key.max)

-- A value that is in range is set and read back, and the other keys keep theirs.
pub get-set :
    (config : Settings) (key other : ConfigKey) (value : ℕ)
    → InRange key value
    → str_eq key.key other.key ≡ false
    → (changed : Settings) × (set config key value ≡ ok changed)
      × (get changed key ≡ value)
      × (get changed other ≡ get config other)
unfolding set can_set get
get-set config key other value range apart = (
  (key.key, value) ∷ config,
  ground arith,
  rw ((eq_iff key.key key.key).1 refl) refl,
  rw apart refl,
)

-- A value below the least or above the greatest allowed one is refused.
pub set_refuses :
    (config : Settings) (key : ConfigKey) (value : ℕ)
    → (value < key.min) ⊎ (key.max < value)
    → set config key value ≡ err invalid_config_value
unfolding set can_set
set_refuses config key value (inl low) = ground arith
set_refuses config key value (inr high) = ground arith

set_allowed :
    (config : Settings) (key : ConfigKey) (value : ℕ)
    → ltb value key.min ≡ false
    → ltb key.max value ≡ false
    → set config key value ≡ ok ((key.key, value) ∷ config)
unfolding set can_set
set_allowed config key value low high = rw (low, high, can_set) refl

abbrev settings_of : Result Settings → Settings
settings_of (ok config) = config
settings_of (err e) = []

set-ok :
    (config changed : Settings) (key : ConfigKey) (value : ℕ)
    → set config key value ≡ ok changed
    → InRange key value × ((key.key, value) ∷ config ≡ changed)
unfolding set can_set
set-ok config changed key value h = elim (Bool-cases (ltb value key.min)) [
  | inl low ↦ absurd (let refused = set_refuses config key value (inl (ground arith)) in cc)
  | inr not_low ↦ elim (Bool-cases (ltb key.max value)) [
    | inl high ↦ absurd (let refused = set_refuses config key value (inr (ground arith)) in cc)
    | inr not_high ↦ (
      (ground arith, ground arith),
      ap settings_of (sym (set_allowed config key value not_low not_high) ∙ h),
    )
  ]
]

-- Setting a key keeps the value of every key in its range, where a key of the same name is the key.
pub set-InRange :
    (config changed : Settings) (key other : ConfigKey) (value : ℕ)
    → (str_eq key.key other.key ≡ true → key ≡ other)
    → InRange other (get config other)
    → set config key value ≡ ok changed
    → InRange other (get changed other)
unfolding get
set-InRange config changed key other value names before h =
    let (range, e) = set-ok config changed key value h in
    subst (λ c. InRange other (get c other)) e
      (elim (Bool-cases (str_eq key.key other.key)) [
        | inl same ↦ rw same (subst (λ k. InRange k value) (names same) range)
        | inr apart ↦ rw apart before
      ])

abbrev key_or : ConfigKey → Option ConfigKey → ConfigKey
key_or other none = other
key_or other (some key) = key

parse_among-key :
    (value : String) (opts : List ConfigKey) (key : ConfigKey)
    → parse_among opts value ≡ some key
    → key.key ≡ value
unfolding parse_among
parse_among-key value [] key h = cc
parse_among-key value (opt ∷ opts) key h = elim (Bool-cases (str_eq opt.key value)) [
  | inl this ↦
      let found : parse_among (opt ∷ opts) value ≡ some opt = rw (this, parse_among) refl in
      let same : opt ≡ key = ap (key_or opt) (sym found ∙ h) in
      ap (λ (k : ConfigKey). k.key) (sym same) ∙ (eq_iff opt.key value).0 this
  | inr other ↦
      let later : parse_among (opt ∷ opts) value ≡ parse_among opts value =
        rw (other, parse_among) refl in
      parse_among-key value opts key (sym later ∙ h)
]

-- The key that a name is parsed to has that name.
pub parse-key : (value : String) (key : ConfigKey) → parse value ≡ some key → key.key ≡ value
unfolding parse
parse-key value key h = parse_among-key value available key h
