-- ===== src/Chat/Sender.antt =====
-- Sender.c: lines from the standard input go to the group.
use ipc_project.Base.{
  ℕ, ◌-◌, Bool, Option, none, some, List, [], ◌∷◌, ◌++◌, take, Exec, ok, ◌>>=◌, if◌then◌else◌,
}
use ipc_project.CLib.{Block, Text, strcpy, string_at}
use ipc_project.Chat.{
  Arguments, Standing, returned_one, returned_nothing, exited, running, save_path,
}

abbrev pub file_size : ℕ
file_size = 50

abbrev pub to_send_size : ℕ
to_send_size = 4096

abbrev pub from_stdin_size : ℕ
from_stdin_size = 200

-- `fgets` is told that the array has `TO_SEND_SIZE` characters. At the end of the input it writes
-- nothing.
unfoldable pub read_line : Block → Option Text → Exec Block
read_line from_stdin none = ok from_stdin
read_line from_stdin (some line) = strcpy from_stdin 0 (take (to_send_size - 1) line)

-- The two arrays after a round, and the datagram that is sent.
unfoldable pub send_line : Text → Block → Block → Option Text → Exec (Block × Block × Block)
unfolding read_line
send_line username from_stdin to_send line = do
  from_stdin ← read_line from_stdin line
  text ← string_at from_stdin 0
  to_send ← strcpy to_send 0 (username ++ (b':' ∷ text))
  sent ← string_at to_send 0
  ok (from_stdin, to_send, sent ++ (0 ∷ []))

-- The loop over the rounds that happen: a line, or the end of the input, and whether `sendto`
-- succeeds. The result is what was sent.
unfoldable pub send_lines :
    Text → Block → Block → List (Option Text × Bool) → Exec (List Block × Standing)
unfolding send_line
send_lines username from_stdin to_send [] = ok ([], running)
send_lines username from_stdin to_send ((line, succeeds) ∷ rounds) = do
  (from_stdin, to_send, datagram) ← send_line username from_stdin to_send line
  let others = send_lines username from_stdin to_send rounds
  if succeeds then (others >>= λ r. ok (datagram ∷ r.0, r.1)) else ok ([], exited)

-- `main`. No arguments stand for a wrong number of them.
unfoldable pub main :
    Option Arguments
    → Block
    → Bool
    → Option ℕ
    → Block
    → Block
    → List (Option Text × Bool)
    → Exec (List Block × Standing)
unfolding save_path send_lines
main none str file socket from_stdin to_send rounds = ok ([], returned_one)
main (some arguments) str file socket from_stdin to_send rounds = do
  str ← save_path str arguments
  if file
      then (elim socket [
        | none ↦ ok ([], exited)
        | some sock ↦ send_lines arguments.username from_stdin to_send rounds
      ])
      else ok ([], returned_nothing)
