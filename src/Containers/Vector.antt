-- ===== src/Containers/Vector.antt =====
-- vector.h, as far as the sources use it.
use ipc_project.Base.{
  ℕ, ◌≤◌, ◌<◌, ◌≡◌, refl, List, [], ◌∷◌, ◌++◌, length, ltb, if◌then◌else◌, arith, lt→ltb,
  Bool-cases, inl, inr,
}

pub data VectorResult : Type 0 where
  vector_success vector_unitialized_error vector_allocation_error : VectorResult
  vector_index_out_of_bounds_error vector_overflow vector_underflow : VectorResult

-- A vector that was created with block size 0, which never grows. `VectorForEach` visits `items` in
-- order.
pub record VectorLib : Type 1 where
  pub Vector : Type 0 → Type 0
  pub create : (V : Type 0) → ℕ → Vector V
  pub append : (V : Type 0) → Vector V → V → VectorResult × Vector V
  pub items : (V : Type 0) → Vector V → List V
  pub capacity : (V : Type 0) → Vector V → ℕ

pub record IsLawful (W : VectorLib) : Type 1 where
  pub items-create : (V : Type 0) (size : ℕ) → W.items V (W.create V size) ≡ []
  pub capacity-create : (V : Type 0) (size : ℕ) → W.capacity V (W.create V size) ≡ size
  pub append_room :
      (V : Type 0) (w : W.Vector V) (v : V)
      → length (W.items V w) < W.capacity V w
      → (w' : W.Vector V) × (W.append V w v ≡ (vector_success, w'))
        × (W.items V w' ≡ W.items V w ++ (v ∷ []))
        × (W.capacity V w' ≡ W.capacity V w)
  pub append_full :
      (V : Type 0) (w : W.Vector V) (v : V)
      → W.capacity V w ≤ length (W.items V w)
      → W.append V w v ≡ (vector_overflow, w)

-- A list with its size: the laws can be met.
pub record ListVector (V : Type 0) : Type 0 where
  pub content : List V
  pub size : ℕ

unfoldable pub append_last : {V : Type 0} → ListVector V → V → VectorResult × ListVector V
append_last w v =
    if ltb (length w.content) w.size
    then (vector_success, record w { content = w.content ++ (v ∷ []) })
    else (vector_overflow, w)

abbrev pub list_vector : VectorLib
list_vector = record {
  Vector = ListVector;
  create = λ V size. record { content = []; size = size };
  append = λ V w v. append_last w v;
  items = λ V w. w.content;
  capacity = λ V w. w.size;
}

append_last_room :
    (V : Type 0) (w : ListVector V) (v : V)
    → length w.content < w.size
    → (w' : ListVector V) × (append_last w v ≡ (vector_success, w'))
      × (w'.content ≡ w.content ++ (v ∷ []))
      × (w'.size ≡ w.size)
unfolding append_last
append_last_room V w v h =
    (record w { content = w.content ++ (v ∷ []) }, rw (lt→ltb _ _ h), refl, refl)

append_last_full :
    (V : Type 0) (w : ListVector V) (v : V)
    → w.size ≤ length w.content
    → append_last w v ≡ (vector_overflow, w)
unfolding append_last
append_last_full V w v h = elim (Bool-cases (ltb (length w.content) w.size)) [
  | inl e ↦ absurd (ground arith)
  | inr e ↦ rw e
]

pub list_vector-IsLawful : IsLawful list_vector
list_vector-IsLawful = record {
  items-create = λ V size. refl;
  capacity-create = λ V size. refl;
  append_room = λ V w v h. append_last_room V w v h;
  append_full = λ V w v h. append_last_full V w v h;
}
