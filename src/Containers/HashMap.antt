-- ===== src/Containers/HashMap.antt =====
-- HashMap.h
pub mod Assoc
use ipc_project.Base.{ℕ, suc, ◌≡◌, ◌⊎◌, Bool, Option, none, some, List, [], length, if◌then◌else◌}
use ipc_project.CLib.{Text, strcmp_eq}
use ipc_project.Containers.Entries.{lookup, Distinct}

pub data MapResult : Type 0 where
  map_success map_uninitialized_error map_key_null_error map_key_duplicate_error : MapResult
  map_key_not_found_error map_allocation_error : MapResult
  map_internal_storage_element_allocation_error map_input_null : MapResult

-- A map with strings for keys. `create` is what `HashMapCreate` returns where it does not fail. A
-- call that may set a variable returns what it sets. `entries` lists the pairs in the order in which
-- `HashMapForEach` visits them.
pub record HashMapLib : Type 1 where
  pub Map : Type 0 → Type 0
  pub create : (V : Type 0) → ℕ → (Text → ℕ) → (Text → Text → Bool) → Map V
  pub insert : (V : Type 0) → Map V → Text → V → MapResult × Map V
  pub remove : (V : Type 0) → Map V → Text → MapResult × Option (Text × V) × Map V
  pub find : (V : Type 0) → Map V → Text → MapResult × Option V
  pub entries : (V : Type 0) → Map V → List (Text × V)

-- What `HashMapFind` returns, by whether the key is there.
abbrev pub found : {V : Type 0} → Option V → MapResult × Option V
found none = (map_key_not_found_error, none)
found (some v) = (map_success, some v)

module _ (L : HashMapLib) (V : Type 0) (Keyed : L.Map V → Type 0) (m : L.Map V) (k : Text) where
  -- An insertion that succeeds adds one pair and leaves every other key as it was.
  abbrev pub Inserts : V → Type 0
  Inserts v =
      (m' : L.Map V) × (L.insert V m k v ≡ (map_success, m'))
      × Keyed m'
      × ((j : Text)
          → lookup j (L.entries V m')
            ≡ (if strcmp_eq k j then some v else lookup j (L.entries V m)))
      × (length (L.entries V m') ≡ suc (length (L.entries V m)))

  abbrev pub Removes : V → Type 0
  Removes v =
      (m' : L.Map V) × (L.remove V m k ≡ (map_success, some (k, v), m'))
      × Keyed m'
      × ((j : Text)
          → lookup j (L.entries V m') ≡ (if strcmp_eq j k then none else lookup j (L.entries V m)))
      × (length (L.entries V m) ≡ suc (length (L.entries V m')))

-- What the header documents. `Keyed` holds of a map that was created with `strcmp` for its equality.
pub record IsLawful (L : HashMapLib) : Type 1 where
  pub Keyed : (V : Type 0) → L.Map V → Type 0
  pub create-Keyed :
      (V : Type 0) (capacity : ℕ) (hash : Text → ℕ) (eq : Text → Text → Bool)
      → eq ≡ strcmp_eq
      → Keyed V (L.create V capacity hash eq)
  pub entries-create :
      (V : Type 0) (capacity : ℕ) (hash : Text → ℕ) (eq : Text → Text → Bool)
      → L.entries V (L.create V capacity hash eq) ≡ []
  pub entries-Distinct : (V : Type 0) (m : L.Map V) → Keyed V m → Distinct (L.entries V m)
  pub find-entries :
      (V : Type 0) (m : L.Map V) (k : Text)
      → Keyed V m
      → L.find V m k ≡ found (lookup k (L.entries V m))
  pub insert_present :
      (V : Type 0) (m : L.Map V) (k : Text) (v w : V)
      → Keyed V m
      → lookup k (L.entries V m) ≡ some w
      → L.insert V m k v ≡ (map_key_duplicate_error, m)
  pub insert_absent :
      (V : Type 0) (m : L.Map V) (k : Text) (v : V)
      → Keyed V m
      → lookup k (L.entries V m) ≡ none
      → (L.insert V m k v ≡ (map_allocation_error, m)) ⊎ Inserts L V (Keyed V) m k v
  pub remove_absent :
      (V : Type 0) (m : L.Map V) (k : Text)
      → Keyed V m
      → lookup k (L.entries V m) ≡ none
      → L.remove V m k ≡ (map_key_not_found_error, none, m)
  pub remove_present :
      (V : Type 0) (m : L.Map V) (k : Text) (v : V)
      → Keyed V m
      → lookup k (L.entries V m) ≡ some v
      → Removes L V (Keyed V) m k v
