-- ===== src/Containers/Names.antt =====
-- A map that is used as a set of names: each name is its own value.
use ipc_project.Base.{
  ◌≡◌, ◌≢◌, sym, subst, ap, inl, inr, Bool, true, false, Bool-cases, Option, Option-cases, none,
  some, if◌then◌else◌, arith,
}
use ipc_project.CLib.{Text, strcmp_eq}
use ipc_project.CLib.Strings.{strcmp_eq_iff}
use ipc_project.Containers.Entries.{lookup}
use ipc_project.Containers.HashMap.{
  HashMapLib, IsLawful, MapResult, map_success, map_key_duplicate_error, map_key_not_found_error,
  map_allocation_error,
}

abbrev pub is_some : {V : Type 0} → Option V → Bool
is_some none = false
is_some (some v) = true

abbrev pub is_in : (L : HashMapLib) → L.Map Text → Text → Bool
is_in L names name = is_some (lookup name (L.entries Text names))

module _ (L : HashMapLib) (H : IsLawful L) (names : L.Map Text) (keyed : H.Keyed Text names)
    (name : Text) where
  -- A name that is there already, or is not there, stays so.
  added_twice :
      (w : Text)
      → lookup name (L.entries Text names) ≡ some w
      → (other : Text)
      → is_in L names other ≡ (if strcmp_eq name other then true else is_in L names other)
  added_twice w present other = elim (Bool-cases (strcmp_eq name other)) [
    | inl same ↦
        let e : lookup other (L.entries Text names) ≡ some w =
          subst (λ x. lookup x (L.entries Text names) ≡ some w) ((strcmp_eq_iff name other).0 same)
            present in
        rw (same, e)
    | inr different ↦ rw different
  ]

  removed_twice :
      lookup name (L.entries Text names) ≡ none
      → (other : Text)
      → is_in L names other ≡ (if strcmp_eq other name then false else is_in L names other)
  removed_twice absent other = elim (Bool-cases (strcmp_eq other name)) [
    | inl same ↦
        let e : lookup other (L.entries Text names) ≡ none =
          subst (λ x. lookup x (L.entries Text names) ≡ none)
            (sym ((strcmp_eq_iff other name).0 same)) absent in
        rw (same, e)
    | inr different ↦ rw different
  ]

  -- A name is added, or is there already and nothing changes.
  pub insert-is_in :
      (L.insert Text names name name).0 ≢ map_allocation_error
      → (names' : L.Map Text) × (L.insert Text names name name
          ≡ (if is_in L names name then map_key_duplicate_error else map_success, names'))
        × H.Keyed Text names'
        × ((other : Text)
            → is_in L names' other ≡ (if strcmp_eq name other then true else is_in L names other))
  insert-is_in not_full = elim (Option-cases (lookup name (L.entries Text names))) [
    | inl absent ↦ elim (H.insert_absent Text names name name keyed absent) [
      | inl full ↦ absurd (not_full (ap (λ (r : MapResult × L.Map Text). r.0) full))
      | inr (names', inserted, keyed', law, _) ↦
          (names', rw absent inserted, keyed', λ other. ground (arith, law other))
    ]
    | inr (w, present) ↦ (
      names,
      rw present (H.insert_present Text names name name w keyed present),
      keyed,
      added_twice w present,
    )
  ]

  -- A name is removed, or is not there and nothing changes.
  pub remove-is_in :
      (pair : Option (Text × Text)) × (names' : L.Map Text) × (L.remove Text names name
        ≡ (if is_in L names name then map_success else map_key_not_found_error, pair, names'))
      × H.Keyed Text names'
      × ((other : Text)
          → is_in L names' other ≡ (if strcmp_eq other name then false else is_in L names other))
  remove-is_in = elim (Option-cases (lookup name (L.entries Text names))) [
    | inl absent ↦ (
      none,
      names,
      rw absent (H.remove_absent Text names name keyed absent),
      keyed,
      removed_twice absent,
    )
    | inr (w, present) ↦
        let (names', removed, keyed', law, _) = H.remove_present Text names name w keyed present in
        (some (name, w), names', rw present removed, keyed', λ other. ground (arith, law other))
  ]
