-- ===== src/GrpMng/Addresses.antt =====
-- The multicast addresses of the groups that grp_mng.c manages: who has which.
use ipc_project.Base.{
  ℕ, zero, suc, ◌+◌, ◌<◌, ◌≡◌, ◌≢◌, ◌⊎◌, sym, ap, ◌∙◌, subst, inl, inr, Bool-cases, Option, none,
  some, List, [], ◌∷◌, ◌++◌, All, if◌then◌else◌, arith, drop,
}
use mathlib.Core.Path.{fun_ext}
use ipc_project.CLib.{Text, strcmp_eq}
use ipc_project.CLib.Strings.{strcmp_eq_iff}
use ipc_project.CLib.Atoi.{digits}
use ipc_project.Containers.HashMap.{HashMapLib}
use ipc_project.Group.{Group}
use ipc_project.GrpMng.Decimal.{integer_length}
use ipc_project.GrpMng.Numbers.{decimal, digits-fixed_digits, integer_length_lem}
use ipc_project.GrpMng.Groups.{ip_prefix}
use ipc_project.GrpMng.Creation.{addresses}

abbrev pub Absent : Text → List Text → Type 0
Absent ip = All (λ x. x ≢ ip)

abbrev pub Distinct : List Text → Type 0
Distinct [] = Unit {0}
Distinct (ip ∷ free) = Absent ip free × Distinct free

-- No address is free twice, no group has a free address, and two names that have one address are one
-- name.
pub record IsApart (address_of : Text → Option Text) (free : List Text) : Type 0 where
  pub free_once : Distinct free
  pub unused : (name ip : Text) → address_of name ≡ some ip → Absent ip free
  pub one_each : (n k ip : Text) → address_of n ≡ some ip → address_of k ≡ some ip → n ≡ k

-- A decimal number is written in one way.
decimal-injective : (i j : ℕ) → decimal i ≡ decimal j → i ≡ j
decimal-injective i j e =
    sym (digits-fixed_digits (integer_length i) i (integer_length_lem i))
    ∙ ap (digits 0) e
    ∙ digits-fixed_digits (integer_length j) j (integer_length_lem j)

address-injective : (i j : ℕ) → ip_prefix ++ decimal i ≡ ip_prefix ++ decimal j → i ≡ j
address-injective i j e = decimal-injective i j (ap (drop 8) e)

addresses-Absent : (rounds i j : ℕ) → i < j → Absent (ip_prefix ++ decimal i) (addresses rounds j)
unfolding addresses
addresses-Absent zero i j h = tt
addresses-Absent (suc rounds) i j h = (
  λ e. absurd (omega (arith, h, address-injective j i e)),
  addresses-Absent rounds i (j + 1) (omega arith),
)

addresses-Distinct : (rounds i : ℕ) → Distinct (addresses rounds i)
unfolding addresses
addresses-Distinct zero i = tt
addresses-Distinct (suc rounds) i =
    (addresses-Absent rounds i (i + 1) (omega arith), addresses-Distinct rounds (i + 1))

module _ (L : HashMapLib) where
  abbrev pub ip_of : Option (Group L) → Option Text
  ip_of none = none
  ip_of (some g) = some g.group_ip

-- With no groups, the first addresses are apart.
pub addresses-IsApart :
    (address_of : Text → Option Text) (rounds i : ℕ)
    → ((name : Text) → address_of name ≡ none)
    → IsApart address_of (addresses rounds i)
addresses-IsApart address_of rounds i nobody = record {
  free_once = addresses-Distinct rounds i;
  unused = λ name ip e. absurd (ground (arith, nobody name, e));
  one_each = λ n k ip e f. absurd (ground (arith, nobody n, e));
}

-- What has the same addresses under the same names is apart too.
pub same-IsApart :
    (before after : Text → Option Text) (free : List Text)
    → ((name : Text) → after name ≡ before name)
    → IsApart before free
    → IsApart after free
same-IsApart before after free same v = subst (λ d. IsApart d free) (fun_ext λ n. sym (same n)) v

module _ (before after : Text → Option Text) (name ip : Text) (free : List Text)
    (step : (other : Text) → after other ≡ (if strcmp_eq name other then some ip else before other))
    (v : IsApart before (ip ∷ free)) where
  -- An address is the new one, of the new name, or was there before.
  after-cases : (n x : Text) → after n ≡ some x → ((n ≡ name) × (ip ≡ x)) ⊎ (before n ≡ some x)
  after-cases n x e = elim (Bool-cases (strcmp_eq name n)) [
    | inl same ↦ inl (sym ((strcmp_eq_iff name n).0 same), ground (arith, step n, e, same))
    | inr different ↦ inr (ground (arith, step n, e, different))
  ]

  taken_unused : (n x : Text) → after n ≡ some x → Absent x free
  taken_unused n x e = elim (after-cases n x e) [
    | inl (_, q) ↦ subst (λ y. Absent y free) q v.free_once.0
    | inr old ↦ (v.unused n x old).1
  ]

  not_before : (k x : Text) → ip ≡ x → before k ≢ some x
  not_before k x q old = (v.unused k x old).0 q

  taken_one_each : (n k x : Text) → after n ≡ some x → after k ≡ some x → n ≡ k
  taken_one_each n k x e f = elim (after-cases n x e) [
    | inl (p, q) ↦ elim (after-cases k x f) [
      | inl (p', _) ↦ p ∙ sym p'
      | inr old ↦ absurd (not_before k x q old)
    ]
    | inr old ↦ elim (after-cases k x f) [
      | inl (_, q) ↦ absurd (not_before n x q old)
      | inr old' ↦ v.one_each n k x old old'
    ]
  ]

  -- A name takes the first free address.
  pub taken-IsApart : IsApart after free
  taken-IsApart = record {
    free_once = v.free_once.1;
    unused = taken_unused;
    one_each = taken_one_each;
  }

-- An address that is taken and not used.
pub lost-IsApart :
    (address_of : Text → Option Text) (ip : Text) (free : List Text)
    → IsApart address_of (ip ∷ free)
    → IsApart address_of free
lost-IsApart address_of ip free v = record {
  free_once = v.free_once.1;
  unused = λ name x e. (v.unused name x e).1;
  one_each = v.one_each;
}
