-- ===== src/ServerNet/Loop/Calls.antt =====
-- What `RunServer` of server_net.c calls, and what becomes of the variables that the calls set.
use ipc_project.Base.{
  ℕ, zero, suc, ◌+◌, ◌-◌, ◌^◌, ℤ, pos, negsuc, Bool, true, false, Option, none, some, List, [], ◌∷◌,
  ◌++◌, length, take, drop, ltb, ◌==◌, if◌then◌else◌, Exec, ok, fault, ◌>>=◌,
}
use ipc_project.CLib.{Block}
use ipc_project.ServerNet.{Sending, buffer_size}
use ipc_project.ServerNet.Descriptors.{FdSet, fd_isset}

-- The bytes of a pointer, which `sizeof(_masterSet)` is, hold so many descriptors.
abbrev pub copied : ℕ
copied = 64

pub record Selected : Type 0 where
  pub rc : ℤ
  pub ready : FdSet

pub data Accepted : Type 0 where
  refused : Bool → Accepted
  accepted : ℕ → Accepted

-- `arrived []` is the end of a connection.
pub data Received : Type 0 where
  failed : Received
  arrived : Block → Received

pub record Round : Type 0 where
  pub select : ℕ → FdSet → Selected
  pub accept : Accepted
  pub for_socket : Bool
  pub for_node : Bool
  pub recv : ℕ → Received

-- The `memcpy` from the master set to the working set, and `select`. The result is what is returned
-- and the working set after the call.
abbrev pub copy_set : FdSet → FdSet → FdSet
copy_set working master i = if ltb i copied then master i else working i

unfoldable pub select_result : ℤ → ℤ
select_result (negsuc n) = negsuc 0
select_result (pos zero) = negsuc 0
select_result (pos (suc n)) = pos (suc n)

unfoldable pub select_operation : Round → FdSet → FdSet → ℕ → ℤ × FdSet
unfolding select_result
select_operation round working master max_sd =
    let selected = round.select (max_sd + 1) (copy_set working master) in
    (select_result selected.rc, selected.ready)

-- `recv` writes at most `sizeof(buffer)` bytes, at the front of the buffer.
abbrev pub received_rc : Received → ℤ
received_rc failed = negsuc 0
received_rc (arrived bytes) = pos (length (take buffer_size bytes))

abbrev pub received_into : Received → Block → Block
received_into failed buffer = buffer
received_into (arrived bytes) buffer =
    take buffer_size bytes ++ drop (length (take buffer_size bytes)) buffer

-- An `int` as a `size_t`.
abbrev pub to_size : ℤ → ℕ
to_size (pos n) = n
to_size (negsuc n) = 2 ^ 64 - 1 - n

abbrev pub is_negative : ℤ → Bool
is_negative (pos n) = false
is_negative (negsuc n) = true

abbrev pub is_zero : ℤ → Bool
is_zero (pos n) = n == 0
is_zero (negsuc n) = false

abbrev pub increment : ℤ → ℤ
increment (pos n) = pos (n + 1)
increment (negsuc zero) = pos 0
increment (negsuc (suc n)) = negsuc n

abbrev pub decrement : ℤ → ℤ
decrement (pos zero) = negsuc 0
decrement (pos (suc n)) = pos n
decrement (negsuc n) = negsuc (suc n)

-- What the loop makes known: calls of the application's functions, messages sent, connections closed.
pub data Event (E : Type 0) : Type 0 where
  called : E → Event E
  sent : Sending → Event E
  closed : ℕ → Event E

abbrev pub report : {A E : Type 0} → Option (A → E) → A → List (Event E)
report none a = []
report (some f) a = called (f a) ∷ []

abbrev pub report_if : {A E : Type 0} → Bool → Option (A → E) → A → List (Event E)
report_if b f a = if b then report f a else []

-- `while (FD_ISSET(maxSD, &masterSet) == FALSE) maxSD -= 1;`, where -1 is no descriptor.
unfoldable pub lower : ℕ → FdSet → Exec ℕ
unfolding fd_isset
lower zero master = fd_isset 0 master >>= λ set. if set then ok 0 else fault
lower (suc n) master = do
  member ← fd_isset (suc n) master
  let below = lower n master
  if member then ok (suc n) else below
