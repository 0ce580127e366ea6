-- ===== src/Dataset/Compatible.antt =====
-- Which datasets pass the checks of `OnDiskDataset::merge` (libursa/OnDiskDataset.cpp).
use ursadb.Prelude.{◌≡◌, refl, ap, ◌∙◌, sym, Bool, true, false, ◌&&◌, List, [], ◌∷◌, arith, All}
use Prim.Native.String.{String}
use ursadb.Core.{IndexType}
use ursadb.Database.Datasets.{contains_name}
use ursadb.Database.Held.{str_eq_self}
use ursadb.Dataset.Merge.{taints_compatible, types_compatible}
use ursadb.Dataset.State.{OnDiskDataset, contains_all, is_taint_compatible, index_types, same_types}
use ursadb.Dataset.Types.{same_self}

-- The checks of `merge` that compare the datasets.
abbrev pub merge_accepts : List OnDiskDataset → Bool
merge_accepts [] = false
merge_accepts (first ∷ datasets) =
    taints_compatible first datasets && types_compatible (index_types first) datasets

contains_all-subset :
    (all taints : List String)
    → ((t : String) → contains_name taints t ≡ true → contains_name all t ≡ true)
    → contains_all all taints ≡ true
unfolding contains_all contains_name
contains_all-subset all [] h = refl
contains_all-subset all (taint ∷ taints) h =
    let here : contains_name all taint ≡ true = h taint (ground (arith, str_eq_self taint)) in
    rw (here, contains_all)
      (contains_all-subset all taints (λ t listed. h t (ground (arith, listed))))

is_taint_compatible-same :
    (ds other : OnDiskDataset)
    → ((t : String) → contains_name ds.taints t ≡ contains_name other.taints t)
    → is_taint_compatible ds other ≡ true
unfolding is_taint_compatible
is_taint_compatible-same ds other h =
    let within = contains_all-subset ds.taints other.taints (λ t listed. h t ∙ listed) in
    let around = contains_all-subset other.taints ds.taints (λ t listed. sym (h t) ∙ listed) in
    ground (arith, within, around)

taints_compatible-same :
    (first : OnDiskDataset) (datasets : List OnDiskDataset)
    → All (λ ds. (t : String) → contains_name ds.taints t ≡ contains_name first.taints t) datasets
    → taints_compatible first datasets ≡ true
unfolding taints_compatible
taints_compatible-same first [] h = refl
taints_compatible-same first (ds ∷ datasets) h =
    let here = is_taint_compatible-same first ds (λ t. sym (h.0 t)) in
    rw here (taints_compatible-same first datasets h.1)

types_compatible-same :
    (types : List IndexType) (datasets : List OnDiskDataset)
    → All (λ ds. index_types ds ≡ types) datasets
    → types_compatible types datasets ≡ true
unfolding types_compatible
types_compatible-same types [] h = refl
types_compatible-same types (ds ∷ datasets) h =
    let here : same_types (index_types ds) types ≡ true =
      ap (λ ts. same_types ts types) h.0 ∙ same_self types in
    rw here (types_compatible-same types datasets h.1)

pub merge_accepts-same :
    (first : OnDiskDataset) (datasets : List OnDiskDataset)
    → All (λ ds. (t : String) → contains_name ds.taints t ≡ contains_name first.taints t) datasets
    → All (λ ds. index_types ds ≡ index_types first) datasets
    → merge_accepts (first ∷ datasets) ≡ true
merge_accepts-same first datasets taints types =
    let t = taints_compatible-same first datasets taints in
    let u = types_compatible-same (index_types first) datasets types in ground (arith, t, u)
