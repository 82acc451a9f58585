-- ===== src/Tests/Chat.antt =====
-- Two lines of a chat.
use ipc_project.Base.{◌≡◌, true, some, List, [], ◌∷◌, map, ok, arith, length-replicate, ℕ}
use ipc_project.CLib.{Block, Text, calloc}
use ipc_project.Chat.{running}
use ipc_project.Chat.Sender.{send_lines}
use ipc_project.Chat.Listener.{listen}
use ipc_project.Chat.Heard.{listen-send_lines}
use ipc_project.Tests.Data.{codes}

abbrev lines : List Text
lines = codes "hi" ∷ codes "all" ∷ []

-- The array holds what came before.
abbrev held : Block → Block
held datagram = calloc 10

listen-send_lines_example :
    (datagrams : List Block) × (send_lines
        (codes "hen")
        (calloc 200)
        (calloc 4096)
        (map (λ line. (some line, true)) lines)
      ≡ ok (datagrams, running))
    × (listen (map (λ datagram. (some datagram, held datagram)) datagrams)
        ≡ ok (codes "hen:hi" ∷ codes "hen:all" ∷ []))
listen-send_lines_example =
    listen-send_lines (codes "hen") (omega arith, (omega arith, (omega arith, tt))) (omega arith)
      (calloc 200) (calloc 4096) lines held
      (
        ((omega arith, (omega arith, tt)), omega arith),
        (((omega arith, (omega arith, (omega arith, tt))), omega arith), tt),
      )
      (length-replicate {A = ℕ} 200 0) (length-replicate {A = ℕ} 4096 0)
