-- ===== src/Containers/Chain.antt =====
-- genlist.h and listitr.h
use ipc_project.Base.{
  ℕ, ◌+◌, ◌≡◌, ◌≤◌, ◌<◌, lt→ltb, suc, zero, refl, true, false, Bool, Option, none, some, List, [],
  ◌∷◌, ◌++◌, length, drop, get_elem?, ◌==◌, ==_iff, ltb, if◌then◌else◌, arith,
}

pub data ListResult : Type 0 where
  list_success list_uninitialized_error list_allocation_error list_null_element_error : ListResult
  list_underflow : ListResult

-- `items` lists the content from the head to the tail, and `rest` what stands from an iterator on.
-- `create` and `push_tail` are told whether there is memory.
pub record ListLib : Type 1 where
  pub Chain : Type 0 → Type 0
  pub Itr : Type 0
  pub create : (V : Type 0) → Bool → Option (Chain V)
  pub push_tail : (V : Type 0) → Bool → Chain V → V → ListResult × Chain V
  pub first : (V : Type 0) → Chain V → Itr
  pub end : (V : Type 0) → Chain V → Itr
  pub next : (V : Type 0) → Chain V → Itr → Itr
  pub get : (V : Type 0) → Chain V → Itr → Option V
  pub same : Itr → Itr → Bool
  pub items : (V : Type 0) → Chain V → List V
  pub rest : (V : Type 0) → Chain V → Itr → List V

-- What the headers document. `IsOf` says that an iterator is one of a list's.
pub record IsLawful (K : ListLib) : Type 1 where
  pub create_room : (V : Type 0) → (c : K.Chain V) × (K.create V true ≡ some c) × (K.items V c ≡ [])
  pub create_full : (V : Type 0) → K.create V false ≡ none
  pub push_room :
      (V : Type 0) (c : K.Chain V) (v : V)
      → (c' : K.Chain V) × (K.push_tail V true c v ≡ (list_success, c'))
        × (K.items V c' ≡ K.items V c ++ (v ∷ []))
  pub push_full :
      (V : Type 0) (c : K.Chain V) (v : V) → K.push_tail V false c v ≡ (list_allocation_error, c)
  pub IsOf : (V : Type 0) → K.Chain V → K.Itr → Type 0
  pub first-IsOf : (V : Type 0) (c : K.Chain V) → IsOf V c (K.first V c)
  pub rest-first : (V : Type 0) (c : K.Chain V) → K.rest V c (K.first V c) ≡ K.items V c
  pub rest_end :
      (V : Type 0) (c : K.Chain V) (i : K.Itr)
      → IsOf V c i
      → K.rest V c i ≡ []
      → K.same i (K.end V c) ≡ true
  pub rest_more :
      (V : Type 0) (c : K.Chain V) (i : K.Itr) (v : V) (vs : List V)
      → K.rest V c i ≡ v ∷ vs
      → (K.same i (K.end V c) ≡ false)
        × (K.same (K.next V c i) i ≡ false)
        × (K.get V c i ≡ some v)
        × (K.rest V c (K.next V c i) ≡ vs)
        × IsOf V c (K.next V c i)

-- A list whose iterators are positions: the laws can be met.
abbrev pub list_chain : ListLib
list_chain = record {
  Chain = List;
  Itr = ℕ;
  create = λ V memory. if memory then some [] else none;
  push_tail =
      λ V memory c v. if memory then (list_success, c ++ (v ∷ [])) else (list_allocation_error, c);
  first = λ V c. 0;
  end = λ V c. length c;
  next = λ V c i. if ltb i (length c) then i + 1 else i;
  get = λ V c i. get_elem? c i;
  same = λ i j. i == j;
  items = λ V c. c;
  rest = λ V c i. drop i c;
}

drop_end : (V : Type 0) (c : List V) (i : ℕ) → i ≤ length c → drop i c ≡ [] → i ≡ length c
drop_end V [] i h e = omega arith
drop_end V (x ∷ c) zero h e = absurd (ground arith)
drop_end V (x ∷ c) (suc i) h e = omega (arith, drop_end V c i (omega arith) e)

drop_more :
    (V : Type 0) (c : List V) (i : ℕ) (v : V) (vs : List V)
    → drop i c ≡ v ∷ vs
    → (i < length c) × (get_elem? c i ≡ some v) × (drop (suc i) c ≡ vs)
drop_more V [] zero v vs e = absurd (ground arith)
drop_more V [] (suc i) v vs e = absurd (ground arith)
drop_more V (x ∷ c) zero v vs e = (omega arith, ground arith, ground arith)
drop_more V (x ∷ c) (suc i) v vs e =
    let (inside, got, left) = drop_more V c i v vs e in (omega arith, got, left)

list_more :
    (V : Type 0) (c : List V) (i : ℕ) (v : V) (vs : List V)
    → drop i c ≡ v ∷ vs
    → ((i == length c) ≡ false)
      × (((if ltb i (length c) then i + 1 else i) == i) ≡ false)
      × (get_elem? c i ≡ some v)
      × (drop (if ltb i (length c) then i + 1 else i) c ≡ vs)
      × ((if ltb i (length c) then i + 1 else i) ≤ length c)
list_more V c i v vs e =
    let (inside, got, left) = drop_more V c i v vs e in
    let one : i + 1 ≡ suc i = omega arith in
    (ground arith, ground arith, got, rw (lt→ltb _ _ inside, one) left, ground arith)

pub list_chain-IsLawful : IsLawful list_chain
list_chain-IsLawful = record {
  create_room = λ V. ([], refl, refl);
  create_full = λ V. refl;
  push_room = λ V c v. (c ++ (v ∷ []), refl, refl);
  push_full = λ V c v. refl;
  IsOf = λ V c i. i ≤ length c;
  first-IsOf = λ V c. omega arith;
  rest-first = λ V c. refl;
  rest_end = λ V c i h e. (==_iff i (length c)).1 (drop_end V c i h e);
  rest_more = λ V c i v vs e. list_more V c i v vs e;
}
