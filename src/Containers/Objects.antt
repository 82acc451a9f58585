-- ===== src/Containers/Objects.antt =====
-- Objects that are kept by a map of pointers: a map gives each name a pointer, NULL (`none`) or an
-- address in a heap, and the code changes the object behind it. Both managers are built this way.
use ipc_project.Base.{
  refl, ℕ, ◌≡◌, ◌≢◌, sym, ap, ◌∙◌, subst, ◌⊎◌, inl, inr, false, Bool-cases, Option, none, some,
  Option-cases, List, [], ◌∷◌, ◌++◌, length, get_elem?, set, get_elem?-set_self, get_elem?-set_ne,
  get_elem?-lt, get_elem?-append_left, get_elem?-append_length, if◌then◌else◌, arith,
}
use ipc_project.CLib.{Text, strcmp_eq}
use ipc_project.CLib.Strings.{strcmp_eq_iff}
use ipc_project.Containers.Entries.{lookup}
use ipc_project.Containers.HashMap.{HashMapLib, IsLawful}

module _ {T : Type 0} where
  -- What an address holds, if anything.
  abbrev pub held : Option (Option T) → Option T
  held none = none
  held (some o) = o

  -- The object behind an entry of the map.
  abbrev pub behind : List (Option T) → Option (Option ℕ) → Option T
  behind heap none = none
  behind heap (some none) = none
  behind heap (some (some address)) = held (get_elem? heap address)

  -- A view with another object for a name.
  abbrev pub updated : (Text → Option T) → Text → T → Text → Option T
  updated d name object other = if strcmp_eq name other then some object else d other

  -- A heap that holds every object of another one where it was.
  abbrev pub Extends : List (Option T) → List (Option T) → Type 0
  Extends old heap =
      (a : ℕ) (u : T) → get_elem? old a ≡ some (some u) → get_elem? heap a ≡ some (some u)

abbrev pub entry : (L : HashMapLib) → L.Map (Option ℕ) → Text → Option (Option ℕ)
entry L map name = lookup name (L.entries (Option ℕ) map)

module _ (L : HashMapLib) {T : Type 0} where
  unfoldable pub object_of : L.Map (Option ℕ) → List (Option T) → Text → Option T
  object_of map heap name = behind heap (entry L map name)

module _ (L : HashMapLib) (H : IsLawful L) {T : Type 0} (IsKept : Text → T → Type 0) where
  -- The entry of a name is a good pointer, to an object that is kept under that name.
  abbrev pub Points : List (Option T) → Text → Option ℕ → Type 0
  Points heap name pointer =
      (address : ℕ) × (object : T) × (pointer ≡ some address)
      × (get_elem? heap address ≡ some (some object))
      × IsKept name object

  pub record IsSound (map : L.Map (Option ℕ)) (heap : List (Option T)) : Type 0 where
    pub keyed : H.Keyed (Option ℕ) map
    pub points :
        (name : Text) (pointer : Option ℕ)
        → entry L map name ≡ some pointer
        → Points heap name pointer

  -- A name is not there, or its pointer leads to its object.
  abbrev pub Kept : L.Map (Option ℕ) → List (Option T) → Text → Type 0
  Kept map heap name =
      (address : ℕ) × (object : T) × (entry L map name ≡ some (some address))
      × (get_elem? heap address ≡ some (some object))
      × IsKept name object
      × (object_of L map heap name ≡ some object)

  pub Kept-cases :
      (map : L.Map (Option ℕ)) (heap : List (Option T)) (name : Text)
      → IsSound map heap
      → ((entry L map name ≡ none) × (object_of L map heap name ≡ none)) ⊎ Kept map heap name
  unfolding object_of
  Kept-cases map heap name v = elim (Option-cases (entry L map name)) [
    | inl e ↦ inl (e, rw e)
    | inr (pointer, e) ↦
        let (address, object, p, g, k) = v.points name pointer e in
        let e' : entry L map name ≡ some (some address) = e ∙ ap some p in
        inr (address, object, e', g, k, rw (e', g))
  ]

  -- The address of an object that is seen under a name.
  pub object_of-address :
      (map : L.Map (Option ℕ)) (heap : List (Option T)) (name : Text) (object : T)
      → IsSound map heap
      → object_of L map heap name ≡ some object
      → (address : ℕ) × (entry L map name ≡ some (some address))
        × (get_elem? heap address ≡ some (some object))
        × IsKept name object
  object_of-address map heap name object v e = elim (Kept-cases map heap name v) [
    | inl (_, absent) ↦ cc
    | inr (address, u, at_entry, at_heap, kept, of_name) ↦
        let same : u ≡ object = ground (arith, e, of_name) in
        (
          address,
          at_entry,
          at_heap ∙ ap (λ (x : T). some (some x)) same,
          subst (IsKept name) same kept,
        )
  ]

  -- A heap that grows, or in which an object is freed that no name leads to.
  module _ (map : L.Map (Option ℕ)) (heap heap' : List (Option T)) (v : IsSound map heap)
      (x : Extends heap heap') where
    pub extended-IsSound : IsSound map heap'
    extended-IsSound = record {
      keyed = v.keyed;
      points =
          λ name pointer e. let (a, u, p, g, k) = v.points name pointer e in (a, u, p, x a u g, k);
    }

    pub object_of-extended :
        (other : Text) → object_of L map heap' other ≡ object_of L map heap other
    unfolding object_of
    object_of-extended other = elim (Kept-cases map heap other v) [
      | inl (e, _) ↦ rw e
      | inr (a, u, e, g, _, _) ↦ rw (e, g, x a u g)
    ]

  pub grown-Extends :
      (heap : List (Option T)) (object : T) → Extends heap (heap ++ (some object ∷ []))
  grown-Extends heap object a u g = get_elem?-append_left heap _ a (get_elem?-lt heap a _ g) ∙ g

  -- A new name for a new object at the end of the heap.
  module _ (map : L.Map (Option ℕ)) (heap : List (Option T)) (name : Text) (object : T)
      (v : IsSound map heap) (kept : IsKept name object) (map' : L.Map (Option ℕ))
      (law : (j : Text)
        → entry L map' j
          ≡ (if strcmp_eq name j then some (some (length heap)) else entry L map j)) where
    abbrev grown : List (Option T)
    grown = heap ++ (some object ∷ [])

    inserted-Points :
        (other : Text) (pointer : Option ℕ)
        → entry L map' other ≡ some pointer
        → Points grown other pointer
    inserted-Points other pointer e = elim (Bool-cases (strcmp_eq name other)) [
      | inl same ↦
          let p : pointer ≡ some (length heap) = ground (arith, law other, e, same) in
          (
            length heap,
            object,
            p,
            get_elem?-append_length heap [] (some object),
            subst (λ n. IsKept n object) ((strcmp_eq_iff name other).0 same) kept,
          )
      | inr different ↦
          let old : entry L map other ≡ some pointer = ground (arith, law other, e, different) in
          let (a, u, p, g, k) = v.points other pointer old in
          (a, u, p, grown-Extends heap object a u g, k)
    ]

    pub inserted-IsSound : H.Keyed (Option ℕ) map' → IsSound map' grown
    inserted-IsSound keyed = record { keyed = keyed; points = inserted-Points }

    pub object_of-inserted :
        (other : Text)
        → object_of L map' grown other ≡ updated (object_of L map heap) name object other
    unfolding object_of
    object_of-inserted other = elim (Bool-cases (strcmp_eq name other)) [
      | inl same ↦ rw (law other, same, get_elem?-append_length heap [] (some object))
      | inr different ↦
          rw (law other, different)
            (object_of-extended map heap grown v (grown-Extends heap object) other)
    ]

  -- Changing an object behind its pointer changes the view at its name only.
  module _ (name_of : T → Text) (named : (name : Text) (t : T) → IsKept name t → name_of t ≡ name)
      (map : L.Map (Option ℕ)) (heap : List (Option T)) (name : Text) (address : ℕ) (old object : T)
      (v : IsSound map heap) (at_entry : entry L map name ≡ some (some address))
      (at_heap : get_elem? heap address ≡ some (some old)) where
    abbrev changed : List (Option T)
    changed = set heap address (some object)

    placed : get_elem? changed address ≡ some (some object)
    placed = get_elem?-set_self heap address (some object) (get_elem?-lt heap address _ at_heap)

    -- Two names with one address have one object, so they are one name.
    distinct :
        (other : Text) (a : ℕ) (u : T)
        → entry L map other ≡ some (some a)
        → get_elem? heap a ≡ some (some u)
        → IsKept other u
        → strcmp_eq name other ≡ false
        → address ≢ a
    distinct other a u e g k different same =
        let (a', u', p, g', k') = v.points name (some address) at_entry in
        let here : get_elem? heap a' ≡ some (some u) =
          subst (λ x. get_elem? heap x ≡ some (some u)) (sym same ∙ ground arith) g in
        let one : u' ≡ u = ground arith in
        let names : name ≡ other = sym (named name u' k') ∙ ap name_of one ∙ named other u k in
        cc (different, (strcmp_eq_iff name other).1 names)

    pub object_of-changed :
        (other : Text)
        → object_of L map changed other ≡ updated (object_of L map heap) name object other
    unfolding object_of
    object_of-changed other = elim (Bool-cases (strcmp_eq name other)) [
      | inl same ↦
          let e : entry L map other ≡ some (some address) =
            subst (λ x. entry L map x ≡ some (some address)) ((strcmp_eq_iff name other).0 same)
              at_entry in
          rw (same, e, placed)
      | inr different ↦ elim (Kept-cases map heap other v) [
        | inl (e, _) ↦ rw (different, e)
        | inr (a, u, e, g, k, _) ↦ rw (
          different,
          e,
          get_elem?-set_ne heap address a (some object) (distinct other a u e g k different),
        )
      ]
    ]

    changed-Points :
        IsKept name object
        → (other : Text) (pointer : Option ℕ) → entry L map other ≡ some pointer
        → Points changed other pointer
    changed-Points kept other pointer e = elim (Bool-cases (strcmp_eq name other)) [
      | inl same ↦
          let names = (strcmp_eq_iff name other).0 same in
          let at_other : entry L map other ≡ some (some address) =
            subst (λ x. entry L map x ≡ some (some address)) names at_entry in
          let p : pointer ≡ some address = ground (arith, e, at_other) in
          (address, object, p, placed, subst (λ x. IsKept x object) names kept)
      | inr different ↦
          let (a, u, p, g, k) = v.points other pointer e in
          (
            a,
            u,
            p,
            get_elem?-set_ne heap address a (some object)
                  (distinct other a u (e ∙ ap some p) g k different)
                ∙ g,
            k,
          )
    ]

    pub changed-IsSound : IsKept name object → IsSound map changed
    changed-IsSound kept = record { keyed = v.keyed; points = changed-Points kept }

-- The object of the name that was updated.
pub updated_self :
    {T : Type 0} (d : Text → Option T) (name : Text) (object : T)
    → updated d name object name ≡ some object
updated_self d name object = rw ((strcmp_eq_iff name name).1 refl)
