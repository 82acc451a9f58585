-- ===== src/Containers/HashMap/Assoc.antt =====
-- An association list with the equality that it was created with: the laws can be met.
use ipc_project.Base.{
  suc, ◌≡◌, refl, sym, ap, ◌∙◌, subst, inr, Bool, Option, none, some, List, [], ◌∷◌, length,
}
use ipc_project.CLib.{Text, strcmp_eq}
use ipc_project.Containers.Entries.{
  lookup_by, erase_by, lookup, erase, Distinct, lookup-erase, length-erase, erase-Distinct,
}
use ipc_project.Containers.HashMap.{
  HashMapLib, Inserts, Removes, IsLawful, MapResult, map_success, map_key_duplicate_error,
  map_key_not_found_error, found,
}

pub record AssocMap (V : Type 0) : Type 0 where
  pub eq : Text → Text → Bool
  pub items : List (Text × V)

unfoldable pub insert_item :
    {V : Type 0} → AssocMap V → Text → V → Option V → MapResult × AssocMap V
insert_item m k v none = (map_success, record m { items = (k, v) ∷ m.items })
insert_item m k v (some w) = (map_key_duplicate_error, m)

unfoldable pub remove_item :
    {V : Type 0} → AssocMap V → Text → Option V → MapResult × Option (Text × V) × AssocMap V
remove_item m k none = (map_key_not_found_error, none, m)
remove_item m k (some v) = (map_success, some (k, v), record m { items = erase_by m.eq k m.items })

abbrev pub assoc_map : HashMapLib
assoc_map = record {
  Map = AssocMap;
  create = λ V capacity hash eq. record { eq = eq; items = [] };
  insert = λ V m k v. insert_item m k v (lookup_by m.eq k m.items);
  remove = λ V m k. remove_item m k (lookup_by m.eq k m.items);
  find = λ V m k. found (lookup_by m.eq k m.items);
  entries = λ V m. m.items;
}

abbrev IsKeyed : (V : Type 0) → AssocMap V → Type 0
IsKeyed V m = (m.eq ≡ strcmp_eq) × Distinct m.items

module _ (V : Type 0) (m : AssocMap V) (k : Text) (e : m.eq ≡ strcmp_eq) where
  lookup-keyed : lookup_by m.eq k m.items ≡ lookup k m.items
  lookup-keyed = ap (λ (q : Text → Text → Bool). lookup_by q k m.items) e

  erase-keyed : erase_by m.eq k m.items ≡ erase k m.items
  erase-keyed = ap (λ (q : Text → Text → Bool). erase_by q k m.items) e

insert_item-absent :
    (V : Type 0) (m : AssocMap V) (k : Text) (v : V)
    → IsKeyed V m
    → lookup k m.items ≡ none
    → Inserts assoc_map V (IsKeyed V) m k v
unfolding insert_item lookup_by
insert_item-absent V m k v (e, d) absent = (
  record m { items = (k, v) ∷ m.items },
  rw (lookup-keyed V m k e ∙ absent),
  (e, (absent, d)),
  λ j. refl,
  refl,
)

remove_item-present :
    (V : Type 0) (m : AssocMap V) (k : Text) (v : V)
    → IsKeyed V m
    → lookup k m.items ≡ some v
    → Removes assoc_map V (IsKeyed V) m k v
unfolding remove_item
remove_item-present V m k v (e, d) present =
    let p = erase-keyed V m k e in
    (
      record m { items = erase_by m.eq k m.items },
      rw (lookup-keyed V m k e ∙ present),
      (e, subst Distinct (sym p) (erase-Distinct k m.items d)),
      λ j. ap (lookup j) p ∙ lookup-erase k j m.items d,
      length-erase k m.items v present ∙ ap (λ (xs : List (Text × V)). suc (length xs)) (sym p),
    )

pub assoc_map-IsLawful : IsLawful assoc_map
unfolding insert_item remove_item
assoc_map-IsLawful = record {
  Keyed = IsKeyed;
  create-Keyed = λ V capacity hash eq e. (e, tt);
  entries-create = λ V capacity hash eq. refl;
  entries-Distinct = λ V m d. d.1;
  find-entries = λ V m k d. ap found (lookup-keyed V m k d.0);
  insert_present = λ V m k v w d p. rw (lookup-keyed V m k d.0 ∙ p);
  insert_absent = λ V m k v d p. inr (insert_item-absent V m k v d p);
  remove_absent = λ V m k d p. rw (lookup-keyed V m k d.0 ∙ p);
  remove_present = λ V m k v d p. remove_item-present V m k v d p;
}

pub assoc_map-Keyed :
    (V : Type 0) (m : AssocMap V)
    → m.eq ≡ strcmp_eq
    → Distinct m.items
    → assoc_map-IsLawful.Keyed V m
unfolding assoc_map-IsLawful
assoc_map-Keyed V m e d = (e, d)
