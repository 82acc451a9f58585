-- ===== src/Containers/Entries.antt =====
-- A list of keys and values, the view of a map that the laws of `HashMap` are stated on.
use ipc_project.Base.{
  suc, ◌≡◌, Bool, Option, none, some, List, [], ◌∷◌, length, if◌then◌else◌, arith,
}
use ipc_project.CLib.{Text, strcmp_eq}
use ipc_project.CLib.Strings.{strcmp_eq_iff}

module _ {V : Type 0} where
  unfoldable pub lookup_by : (Text → Text → Bool) → Text → List (Text × V) → Option V
  lookup_by eq k [] = none
  lookup_by eq k ((j, v) ∷ m) = if eq j k then some v else lookup_by eq k m

  unfoldable pub erase_by : (Text → Text → Bool) → Text → List (Text × V) → List (Text × V)
  erase_by eq k [] = []
  erase_by eq k ((j, v) ∷ m) = if eq j k then m else (j, v) ∷ erase_by eq k m

  -- Keys are equal as `strcmp` says.
  abbrev pub lookup : Text → List (Text × V) → Option V
  lookup = lookup_by strcmp_eq

  abbrev pub erase : Text → List (Text × V) → List (Text × V)
  erase = erase_by strcmp_eq

  -- No key stands twice.
  abbrev pub Distinct : List (Text × V) → Type 0
  Distinct [] = Unit {0}
  Distinct ((k, v) ∷ m) = (lookup k m ≡ none) × Distinct m

  pub lookup-erase :
      (k j : Text) (m : List (Text × V))
      → Distinct m
      → lookup j (erase k m) ≡ (if strcmp_eq j k then none else lookup j m)
  unfolding lookup_by erase_by
  lookup-erase k j [] d = ground arith
  lookup-erase k j ((i, v) ∷ m) d =
      ground
        (arith, strcmp_eq_iff i k, strcmp_eq_iff i j, strcmp_eq_iff j k, lookup-erase k j m d.1)

  pub length-erase :
      (k : Text) (m : List (Text × V)) (v : V)
      → lookup k m ≡ some v
      → length m ≡ suc (length (erase k m))
  unfolding lookup_by erase_by
  length-erase k [] v e = cc
  length-erase k ((i, w) ∷ m) v e = ground (arith, length-erase k m v)

  pub erase-Distinct : (k : Text) (m : List (Text × V)) → Distinct m → Distinct (erase k m)
  unfolding erase_by
  erase-Distinct k [] d = tt
  erase-Distinct k ((i, v) ∷ m) d = ground (arith, erase-Distinct k m d.1, lookup-erase k i m d.1)
