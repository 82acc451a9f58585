-- ===== src/CLib/Memory.antt =====
-- Laws of writes to a block. A block is seen as pieces, and a write replaces one of them.
use ipc_project.Base.{
  ℕ, ◌-◌, suc, take-drop, ◌∷◌, ◌<◌, subst, take, length-take, length-drop, ◌+◌, ◌≤◌, ◌≡◌, ◌∙◌, ◌++◌,
  length, drop, arith, length-append, take-append, drop-append, drop-append_more, le→leb, ok,
}
use ipc_project.CLib.{Block, store, write}

-- A write to the end of what was written so far overwrites the next bytes.
pub write-append_rest :
    (front rest bytes : Block)
    → length bytes ≤ length rest
    → write (front ++ rest) (length front) bytes ≡ ok (front ++ (bytes ++ drop (length bytes) rest))
unfolding write
write-append_rest front rest bytes h =
    let fits : length front + length bytes ≤ length (front ++ rest) =
      omega (arith, length-append front rest) in
    rw (le→leb _ _ fits, take-append, drop-append_more)

-- A write over a middle piece of the same length replaces it.
pub write-append :
    (front old back bytes : Block)
    → length old ≡ length bytes
    → write (front ++ (old ++ back)) (length front) bytes ≡ ok (front ++ (bytes ++ back))
write-append front old back bytes e =
    let fits : length bytes ≤ length (old ++ back) = omega (arith, e, length-append old back) in
    let rest : drop (length bytes) (old ++ back) ≡ back = rw (← e) (drop-append old back) in
    write-append_rest front (old ++ back) bytes fits ∙ rw rest

-- A byte that is stored stands at the head of what follows the bytes before it.
pub store-drop :
    (blk : Block) (k b : ℕ)
    → k < length blk
    → (blk' : Block) × (store blk k b ≡ ok blk')
      × (drop k blk' ≡ b ∷ drop (suc k) blk)
      × (length blk' ≡ length blk)
unfolding store write
store-drop blk k b h =
    let e : k + 1 ≡ suc k = omega arith in
    let size : length (take k blk) ≡ k = length-take k blk (omega arith) in
    (
      take k blk ++ (b ∷ drop (suc k) blk),
      rw (e, le→leb (suc k) (length blk) (omega arith)),
      subst (λ n. drop n (take k blk ++ (b ∷ drop (suc k) blk)) ≡ b ∷ drop (suc k) blk) size
          (drop-append (take k blk) (b ∷ drop (suc k) blk)),
      omega (arith, length-append (take k blk) (b ∷ drop (suc k) blk), length-drop (suc k) blk),
    )

-- A block cut in two.
pub split :
    (n : ℕ) (xs : Block)
    → n ≤ length xs
    → (a b : Block) × (xs ≡ a ++ b) × (length a ≡ n) × (length b ≡ length xs - n)
split n xs h = (take n xs, drop n xs, take-drop n xs, length-take n xs h, length-drop n xs)

-- A write over a middle piece of a block, found by its place.
pub write_at :
    (blk front old back bytes : Block) (off : ℕ)
    → front ++ (old ++ back) ≡ blk
    → off ≡ length front
    → length old ≡ length bytes
    → write blk off bytes ≡ ok (front ++ (bytes ++ back))
write_at blk front old back bytes off e at size =
    rw (← e, at) (write-append front old back bytes size)
