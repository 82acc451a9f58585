-- ===== src/ServerNet/Setup.antt =====
-- `SetServer` and `NoBlocking` of server_net.c.
use ipc_project.Base.{
  ℕ, ◌+◌, ◌⊎◌, Bool, Option, none, some, List, [], ◌∷◌, ◌++◌, ◌==◌, if◌then◌else◌, ◌≡◌, arith,
}

-- What the calls of the system come to: the descriptor that `socket` gives, the flags that the first
-- `fcntl` gives, and whether the others succeed.
pub record Setup : Type 0 where
  pub socket : Option ℕ
  pub setsockopt : Bool
  pub get_flags : Option ℕ
  pub set_flags : Bool
  pub bind : Bool
  pub listen : Bool

-- The calls that are made, in order, with the descriptor that each is about.
pub data Call : Type 0 where
  setsockopt_call get_flags_call set_flags_call bind_call listen_call close_call : ℕ → Call

unfoldable pub no_blocking : Setup → ℕ → List Call
no_blocking sys socket = elim sys.get_flags [
  | none ↦ get_flags_call socket ∷ []
  | some flags ↦ get_flags_call socket ∷ set_flags_call socket ∷ []
]

-- The calls, and the socket that listens; `none` is `exit(-1)`.
unfoldable pub set_server : Setup → List Call × Option ℕ
unfolding no_blocking
set_server sys = elim sys.socket [
  | none ↦ ([], none)
  | some fd ↦
      if sys.setsockopt
      then if sys.bind
        then if sys.listen
          then (
            setsockopt_call fd ∷ (no_blocking sys fd ++ (bind_call fd ∷ listen_call fd ∷ [])),
            some fd,
          )
          else (
            setsockopt_call fd
                ∷ (no_blocking sys fd ++ (bind_call fd ∷ listen_call fd ∷ close_call fd ∷ [])),
            none,
          )
        else (
          setsockopt_call fd ∷ (no_blocking sys fd ++ (bind_call fd ∷ close_call fd ∷ [])),
          none,
        )
      else (setsockopt_call fd ∷ close_call fd ∷ [], none)
]

-- How many descriptors a sequence of calls closes.
abbrev pub closes : List Call → ℕ → ℕ
closes [] fd = 0
closes (close_call i ∷ calls) fd = (if i == fd then 1 else 0) + closes calls fd
closes (_ ∷ calls) fd = closes calls fd

-- Whether the calls of the system succeed or not, a socket that was opened is given back and left
-- open, or the program exits and has closed it once. `socket` gave a descriptor.
pub set_server-closes :
    (sys : Setup) (fd : ℕ)
    → sys.socket ≡ some fd
    → ((set_server sys).1 ≡ some fd) × (closes (set_server sys).0 fd ≡ 0)
      ⊎ ((set_server sys).1 ≡ none) × (closes (set_server sys).0 fd ≡ 1)
unfolding set_server no_blocking
set_server-closes sys fd e = ground arith
