-- ===== src/Containers/Queue.antt =====
-- genqueue.h
use ipc_project.Base.{
  ℕ, ◌≤◌, ◌<◌, ◌≡◌, refl, ap, Option, none, some, List, [], ◌∷◌, ◌++◌, length, ltb, if◌then◌else◌,
  arith, lt→ltb, Bool-cases, inl, inr,
}

pub data QueueResult : Type 0 where
  queue_success queue_uninitialized_error queue_overflow_error queue_underflow_error : QueueResult
  queue_data_not_found_error queue_data_uninitialized_error : QueueResult

-- `items` lists the content from the next to be removed on, and `capacity` is the size created with.
pub record QueueLib : Type 1 where
  pub Queue : Type 0 → Type 0
  pub create : (V : Type 0) → ℕ → Queue V
  pub insert : (V : Type 0) → Queue V → V → QueueResult × Queue V
  pub remove : (V : Type 0) → Queue V → QueueResult × Option V × Queue V
  pub items : (V : Type 0) → Queue V → List V
  pub capacity : (V : Type 0) → Queue V → ℕ

-- What the header documents: first in, first out, up to the size.
pub record IsLawful (Q : QueueLib) : Type 1 where
  pub items-create : (V : Type 0) (size : ℕ) → Q.items V (Q.create V size) ≡ []
  pub capacity-create : (V : Type 0) (size : ℕ) → Q.capacity V (Q.create V size) ≡ size
  pub insert_room :
      (V : Type 0) (q : Q.Queue V) (v : V)
      → length (Q.items V q) < Q.capacity V q
      → (q' : Q.Queue V) × (Q.insert V q v ≡ (queue_success, q'))
        × (Q.items V q' ≡ Q.items V q ++ (v ∷ []))
        × (Q.capacity V q' ≡ Q.capacity V q)
  pub insert_full :
      (V : Type 0) (q : Q.Queue V) (v : V)
      → Q.capacity V q ≤ length (Q.items V q)
      → Q.insert V q v ≡ (queue_overflow_error, q)
  pub remove_empty :
      (V : Type 0) (q : Q.Queue V)
      → Q.items V q ≡ []
      → Q.remove V q ≡ (queue_data_not_found_error, none, q)
  pub remove_front :
      (V : Type 0) (q : Q.Queue V) (v : V) (vs : List V)
      → Q.items V q ≡ v ∷ vs
      → (q' : Q.Queue V) × (Q.remove V q ≡ (queue_success, some v, q'))
        × (Q.items V q' ≡ vs)
        × (Q.capacity V q' ≡ Q.capacity V q)

-- A list with its size: the laws can be met.
pub record ListQueue (V : Type 0) : Type 0 where
  pub content : List V
  pub size : ℕ

unfoldable pub remove_first :
    {V : Type 0} → ListQueue V → List V → QueueResult × Option V × ListQueue V
remove_first q [] = (queue_data_not_found_error, none, q)
remove_first q (v ∷ vs) = (queue_success, some v, record q { content = vs })

unfoldable pub insert_last : {V : Type 0} → ListQueue V → V → QueueResult × ListQueue V
insert_last q v =
    if ltb (length q.content) q.size
    then (queue_success, record q { content = q.content ++ (v ∷ []) })
    else (queue_overflow_error, q)

abbrev pub list_queue : QueueLib
list_queue = record {
  Queue = ListQueue;
  create = λ V size. record { content = []; size = size };
  insert = λ V q v. insert_last q v;
  remove = λ V q. remove_first q q.content;
  items = λ V q. q.content;
  capacity = λ V q. q.size;
}

insert_last_room :
    (V : Type 0) (q : ListQueue V) (v : V)
    → length q.content < q.size
    → (q' : ListQueue V) × (insert_last q v ≡ (queue_success, q'))
      × (q'.content ≡ q.content ++ (v ∷ []))
      × (q'.size ≡ q.size)
unfolding insert_last
insert_last_room V q v h =
    (record q { content = q.content ++ (v ∷ []) }, rw (lt→ltb _ _ h), refl, refl)

insert_last_full :
    (V : Type 0) (q : ListQueue V) (v : V)
    → q.size ≤ length q.content
    → insert_last q v ≡ (queue_overflow_error, q)
unfolding insert_last
insert_last_full V q v h = elim (Bool-cases (ltb (length q.content) q.size)) [
  | inl e ↦ absurd (ground arith)
  | inr e ↦ rw e
]

pub list_queue-IsLawful : IsLawful list_queue
unfolding remove_first
list_queue-IsLawful = record {
  items-create = λ V size. refl;
  capacity-create = λ V size. refl;
  insert_room = λ V q v h. insert_last_room V q v h;
  insert_full = λ V q v h. insert_last_full V q v h;
  remove_empty = λ V q e. ap (remove_first q) e;
  remove_front = λ V q v vs e. (record q { content = vs }, ap (remove_first q) e, refl, refl);
}
