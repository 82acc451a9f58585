-- ===== src/SrvMng/Malformed.antt =====
-- `GotMessage` of srv_mng.c with a packet whose length of the name is 128 or more. protocol.c reads the
-- length as a signed `char`, and `strncpy` takes it as a huge `size_t`.
use ipc_project.Base.{
  ℕ, ◌+◌, ◌-◌, ◌^◌, ◌≤◌, ◌≡◌, refl, ◌⊎◌, inl, inr, true, some, ◌∷◌, ◌++◌, length, arith,
  length-append, length-replicate, lt→leb, lt→ltb_no, fault, ok,
}
use ipc_project.CLib.{Block, calloc, load, store32, strncpy, word_bytes, char_to_word, char_to_size}
use ipc_project.CLib.Fields.{store32-calloc}
use ipc_project.Containers.HashMap.{HashMapLib}
use ipc_project.Containers.Queue.{QueueLib}
use ipc_project.Containers.Vector.{VectorLib}
use ipc_project.Protocol.Requests.{unpack_register_or_login_request}
use ipc_project.Protocol.Dispatch.{protocol_unpack, protocol_get_tag}
use ipc_project.SrvMng.Handlers.{
  Memory, Locals, SrvMng, got_message, got_tag, got_register, got_login, got_group_create,
  got_group_join, got_group_leave, unpack_request,
}
use ipc_project.SrvMng.Requests.{has_two_strings, two_strings_range, unpacks_two_strings}

-- The copy is refused by the end of the block, whatever stands in the packet.
overlong_fault :
    (tag total n : ℕ) (rest : Block)
    → 128 ≤ n
    → unpack_register_or_login_request (calloc 1920) (tag ∷ total ∷ n ∷ rest) ≡ fault
unfolding unpack_register_or_login_request load strncpy char_to_size
overlong_fault tag total n rest h =
    let w = char_to_word tag in
    let filled : store32 (calloc 1920) 60 w ≡ ok (calloc 60 ++ (word_bytes w ++ calloc 1856)) =
      store32-calloc (calloc 60) (calloc 1856) 60 w refl in
    let size : length (calloc 60 ++ (word_bytes w ++ calloc 1856)) ≡ 1920 = omega (
      arith,
      length-append (calloc 60) (word_bytes w ++ calloc 1856),
      length-replicate {A = ℕ} 1856 0,
    ) in
    rw (filled, lt→ltb_no n 128 h, size, lt→leb (0 + (n + (2 ^ 64 - 256))) 1920 (omega (arith, h)))
      refl

request_fault :
    (tag total n : ℕ) (rest : Block)
    → has_two_strings tag ≡ true
    → 128 ≤ n
    → unpack_request true 64 (tag ∷ total ∷ n ∷ rest) tag ≡ fault
unfolding unpack_request protocol_unpack
request_fault tag total n rest two h =
    let (low, high) = two_strings_range tag two in
    rw
      (
        lt→ltb_no tag 1 low,
        lt→ltb_no 14 tag high,
        unpacks_two_strings (calloc 1920) (tag ∷ total ∷ n ∷ rest) tag two,
        overlong_fault tag total n rest h,
      )
      refl

two_strings-cases :
    (tag : ℕ)
    → has_two_strings tag ≡ true
    → (tag ≡ 1) ⊎ ((tag ≡ 3) ⊎ ((tag ≡ 7) ⊎ ((tag ≡ 9) ⊎ (tag ≡ 11))))
two_strings-cases tag two = ground arith

-- Any packet that asks to register, to log in, or to create, join or leave a group, and in which the
-- byte for the length of the name is 128 or more, makes the server write beyond the struct that it
-- unpacks into, whatever the rest of the packet and the server's state are. The server has memory for
-- the request.
pub got_message-overlong :
    (L : HashMapLib) (Q : QueueLib) (W : VectorLib) (memory : Memory) (locals : Locals)
    (server : SrvMng L Q W) (tag total n : ℕ) (rest : Block)
    → memory.for_request ≡ true
    → has_two_strings tag ≡ true
    → 128 ≤ n
    → got_message L Q W memory locals (some (tag ∷ total ∷ n ∷ rest)) (some server) ≡ fault
unfolding got_message got_tag got_register got_login got_group_create got_group_join got_group_leave
    protocol_get_tag load char_to_word
got_message-overlong L Q W memory locals server tag total n rest requested two h =
    let f : (t : ℕ)
        → has_two_strings t ≡ true
        → unpack_request true 64 (t ∷ total ∷ n ∷ rest) t ≡ fault =
      λ t g. request_fault t total n rest g h in
    elim (two_strings-cases tag two) [
      | inl e ↦ rw e (rw (requested, f 1 refl) refl)
      | inr (inl e) ↦ rw e (rw (requested, f 3 refl) refl)
      | inr (inr (inl e)) ↦ rw e (rw (requested, f 7 refl) refl)
      | inr (inr (inr (inl e))) ↦ rw e (rw (requested, f 9 refl) refl)
      | inr (inr (inr (inr e))) ↦ rw e (rw (requested, f 11 refl) refl)
    ]
