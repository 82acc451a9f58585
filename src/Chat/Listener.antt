-- ===== src/Chat/Listener.antt =====
-- Listener.c: what the group says is printed.
use ipc_project.Base.{
  ℕ, Bool, Option, none, some, List, [], ◌∷◌, ◌++◌, ◌&&◌, take, drop, length, Exec, ok, ◌>>=◌,
  if◌then◌else◌,
}
use ipc_project.CLib.{Block, Text, string_at}
use ipc_project.Chat.{
  Arguments, Standing, returned_one, returned_nothing, exited, running, save_path,
}

abbrev pub to_recieve_size : ℕ
to_recieve_size = 4096

-- The calls before the loop: `fopen`, `socket`, the two calls of `setsockopt`, and `bind`.
pub record Opening : Type 0 where
  pub file : Bool
  pub socket : Option ℕ
  pub reuse : Bool
  pub membership : Bool
  pub bind : Bool

-- The array after `recvfrom`, which writes nothing if it fails.
unfoldable pub receive : Option Block → Block → Block
receive none to_recieve = to_recieve
receive (some datagram) to_recieve =
    let written = take to_recieve_size datagram in written ++ drop (length written) to_recieve

-- The loop over the datagrams that come, or fail to, each with what the array happens to hold, which
-- is declared anew in each round. The result is what is printed.
unfoldable pub listen : List (Option Block × Block) → Exec (List Text)
unfolding receive
listen [] = ok []
listen ((datagram, to_recieve) ∷ rounds) = do
  text ← string_at (receive datagram to_recieve) 0
  others ← listen rounds
  ok (text ∷ others)

-- `main`. No arguments stand for a wrong number of them.
unfoldable pub main :
    Option Arguments → Block → Opening → List (Option Block × Block) → Exec (List Text × Standing)
unfolding save_path listen
main none str opening rounds = ok ([], returned_one)
main (some arguments) str opening rounds = do
  str ← save_path str arguments
  if opening.file
      then (elim opening.socket [
        | none ↦ ok ([], exited)
        | some sock ↦
            if opening.reuse && opening.membership && opening.bind
            then (listen rounds >>= λ texts. ok (texts, running))
            else ok ([], exited)
      ])
      else ok ([], returned_nothing)
