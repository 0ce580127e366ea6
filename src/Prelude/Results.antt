-- ===== src/Prelude/Results.antt =====
-- Results of code that can throw.
use mathlib.Core.Path.{◌≡◌, refl}
use mathlib.Core.Logic.{◌⊎◌, inl, inr}
use mathlib.Core.Bool.{Bool, true, false}

-- What the modelled code throws, one constructor for a message, and failures that are no exception:
-- an `assert` that does not hold, a read behind the end of a buffer, and a loop of the model that
-- runs out of its fuel.
pub data Error : Type 0 where
  invalid_compression_state : Error
  unexpected_query_type : Error
  no_subqueries : Error
  not_a_ngram : Error
  assertion_failed : Error
  out_of_bounds : Error
  out_of_fuel : Error
  flush_failed : Error
  cannot_acquire_lock : Error
  no_such_task : Error
  invalid_config_value : Error
  invalid_wildcard : Error
  file_too_small : Error
  invalid_magic : Error
  unsupported_version : Error
  invalid_index_type : Error
  reserved_not_zero : Error
  invalid_run : Error
  file_id_out_of_range : Error
  swap_size_mismatch : Error
  batch_too_big : Error
  unexpected_index_type : Error
  too_few_datasets : Error
  different_taints : Error
  different_index_types : Error
  no_such_index : Error
  unexpected_ngram_type : Error
  no_such_iterator : Error
  no_such_dataset : Error
  locked_dataset_missing : Error
  invalid_file_name : Error
  empty_file : Error
  file_open_failed : Error

pub data Result {ℓ} (A : Type ℓ) : Type ℓ where
  ok : A → Result A
  err : Error → Result A

-- What follows runs on a result only; the first exception ends the code.
abbrev pub ◌>>=◌ {ℓ κ} :
    {Before : Type ℓ} {After : Type κ} → Result Before → (Before → Result After) → Result After
err thrown >>= next = err thrown
ok result >>= next = next result

-- `if (!test) throw e;`
abbrev pub guard : Bool → Error → Result (Unit {0})
guard false thrown = err thrown
guard true thrown = ok tt

abbrev pub ◌>>◌ {ℓ} : {After : Type ℓ} → Result (Unit {0}) → Result After → Result After
first >> after = first >>= λ _. after

infixl 5 ◌>>=◌ ◌>>◌
pub Result-cases {ℓ} :
    {A : Type ℓ} (m : Result A) → ((a : A) × (m ≡ ok a)) ⊎ ((e : Error) × (m ≡ err e))
Result-cases (ok a) = inl (a, refl)
Result-cases (err e) = inr (e, refl)
