-- ===== src/Database/Garbage.antt =====
-- `collect_garbage` (libursa/Database.cpp) destroys no dataset that is in use.
use ursadb.Prelude.{
  ℕ, ◌≡◌, refl, sym, ap, ◌∙◌, true, false, List, [], ◌∷◌, ◌++◌, ◌==◌, elem, Option, none, some,
  arith, Bool-cases, ==_iff, Option-cases, inl, inr,
}
use mathlib.Core.Path.{subst}
use Prim.Native.String.{String}
use text.Mathlib.Text.{◌==◌ as str_eq}
use text.Mathlib.TextEquality.{eq_iff}
use ursadb.Database.Datasets.{
  Dataset, Datasets, deref, is_named, destroy_loaded, names_of, contains_name, drop_list,
  destroy_all, collect_garbage,
}

-- The list of what is dropped, by whether the first dataset is required.
module _ (required : List String) (set : Dataset) (sets : List Dataset) where
  drop_list-kept :
      contains_name required set.name ≡ true
      → drop_list required (set ∷ sets) ≡ drop_list required sets
  unfolding drop_list
  drop_list-kept h = rw (h, drop_list) refl

  drop_list-dropped :
      contains_name required set.name ≡ false
      → drop_list required (set ∷ sets) ≡ set.name ∷ drop_list required sets
  unfolding drop_list
  drop_list-dropped h = rw (h, drop_list) refl

abbrev pub all_names : List Dataset → List String
all_names [] = []
all_names (set ∷ sets) = set.name ∷ all_names sets

-- A name in the list of what is dropped is the name of a dataset, and none of the required ones.
drop_list-required :
    (required : List String) (sets : List Dataset) (n : String)
    → contains_name (drop_list required sets) n ≡ true
    → (contains_name required n ≡ false) × (contains_name (all_names sets) n ≡ true)
unfolding drop_list contains_name
drop_list-required required [] n h = absurd (ground arith)
drop_list-required required (set ∷ sets) n h = elim (Bool-cases (contains_name required set.name)) [
  | inl kept ↦
      let e = ap (λ ns. contains_name ns n) (drop_list-kept required set sets kept) in
      let (free, named) = drop_list-required required sets n (sym e ∙ h) in (free, ground arith)
  | inr dropped ↦
      let e = ap (λ ns. contains_name ns n) (drop_list-dropped required set sets dropped) in
      elim (Bool-cases (str_eq set.name n)) [
        | inl same ↦ (
          subst (λ t. contains_name required t ≡ false) ((eq_iff set.name n).0 same) dropped,
          ground arith,
        )
        | inr other ↦
            let (free, named) = drop_list-required required sets n (ground arith) in
            (free, ground arith)
      ]
]

abbrev some_dataset : Dataset → Option Dataset → Dataset
some_dataset other none = other
some_dataset other (some ds) = ds

deref-here :
    (d : Dataset) (loaded : List Dataset) (ptr : ℕ)
    → (d.address == ptr) ≡ true
    → deref (d ∷ loaded) ptr ≡ some d
unfolding deref
deref-here d loaded ptr h = rw (h, deref) refl

destroy_loaded-kept :
    (d : Dataset) (loaded : List Dataset) (n : String)
    → is_named d n ≡ false
    → destroy_loaded (d ∷ loaded) n ≡ d ∷ destroy_loaded loaded n
unfolding destroy_loaded
destroy_loaded-kept d loaded n h = rw (h, destroy_loaded) refl

-- A dataset that is not named stays where it is.
deref-destroy_loaded :
    (loaded : List Dataset) (ptr : ℕ) (ds : Dataset) (n : String)
    → deref loaded ptr ≡ some ds
    → is_named ds n ≡ false
    → deref (destroy_loaded loaded n) ptr ≡ some ds
unfolding deref destroy_loaded
deref-destroy_loaded [] ptr ds n h k = cc
deref-destroy_loaded (d ∷ loaded) ptr ds n h k = elim (Bool-cases (d.address == ptr)) [
  | inl here ↦
      let same : d ≡ ds = ap (some_dataset d) (sym (deref-here d loaded ptr here) ∙ h) in
      let unnamed : is_named d n ≡ false = ap (λ t. is_named t n) same ∙ k in
      ap (λ l. deref l ptr) (destroy_loaded-kept d loaded n unnamed)
      ∙ deref-here d (destroy_loaded loaded n) ptr here
      ∙ ap (λ t. some t) same
  | inr elsewhere ↦ ground (arith, deref-destroy_loaded loaded ptr ds n)
]

deref-destroy_all :
    (names : List String) (loaded : List Dataset) (ptr : ℕ) (ds : Dataset)
    → deref loaded ptr ≡ some ds
    → ((n : String) → contains_name names n ≡ true → is_named ds n ≡ false)
    → deref (destroy_all loaded names) ptr ≡ some ds
unfolding destroy_all contains_name
deref-destroy_all [] loaded ptr ds h k = h
deref-destroy_all (n ∷ names) loaded ptr ds h k =
    deref-destroy_all names (destroy_loaded loaded n) ptr ds
      (deref-destroy_loaded loaded ptr ds n h (k n (rw ((eq_iff n n).1 refl) refl)))
      (λ m inside. k m (ground arith))

names_of-required :
    (loaded : List Dataset) (ptrs : List ℕ) (ptr : ℕ) (ds : Dataset)
    → deref loaded ptr ≡ some ds
    → elem ptr ptrs ≡ true
    → contains_name (names_of loaded ptrs) ds.name ≡ true
unfolding names_of contains_name
names_of-required loaded [] ptr ds h k = cc
names_of-required loaded (p ∷ ptrs) ptr ds h k = elim (Bool-cases (ptr == p)) [
  | inl this ↦
      let at_p : deref loaded p ≡ some ds =
        subst (λ t. deref loaded t ≡ some ds) ((==_iff ptr p).0 this) h in
      rw (at_p, names_of) (rw ((eq_iff ds.name ds.name).1 refl) refl)
  | inr other ↦
      let later = names_of-required loaded ptrs ptr ds h (ground arith) in
      elim (Option-cases (deref loaded p)) [
        | inl dangling ↦ rw (dangling, names_of) later
        | inr (d, e) ↦ rw (e, names_of) (ground arith)
      ]
]

not_named :
    (ds : Dataset) (n : String)
    → str_eq ds.name n ≡ false
    → str_eq ds.id n ≡ false
    → is_named ds n ≡ false
unfolding is_named
not_named ds n h k = ground arith

other_name :
    (required : List String) (ds : Dataset) (n : String)
    → contains_name required ds.name ≡ true
    → contains_name required n ≡ false
    → str_eq ds.name n ≡ false
other_name required ds n h k = elim (Bool-cases (str_eq ds.name n)) [
  | inr other ↦ other
  | inl same ↦ absurd (let e = ap (λ t. contains_name required t) ((eq_iff ds.name n).0 same) in cc)
]

-- A dataset that a working set or a snapshot points to is still there behind the pointer after
-- `collect_garbage`, where its id is not the name of a dataset.
pub collect_garbage-deref :
    (db : Datasets) (snapshots : List ℕ) (ptr : ℕ) (ds : Dataset)
    → elem ptr (db.working_datasets ++ snapshots) ≡ true
    → deref db.loaded_datasets ptr ≡ some ds
    → ((n : String)
        → contains_name (all_names db.loaded_datasets) n ≡ true
        → str_eq ds.id n ≡ false)
    → deref (collect_garbage db snapshots).loaded_datasets ptr ≡ some ds
unfolding collect_garbage
collect_garbage-deref db snapshots ptr ds used there ids =
    let required = names_of db.loaded_datasets (db.working_datasets ++ snapshots) in
    let needed =
      names_of-required db.loaded_datasets (db.working_datasets ++ snapshots) ptr ds there used in
    deref-destroy_all (drop_list required db.loaded_datasets) db.loaded_datasets ptr ds there
      (λ n dropped.
        let (free, named) = drop_list-required required db.loaded_datasets n dropped in
        not_named ds n (other_name required ds n needed free) (ids n named))
