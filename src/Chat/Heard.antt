-- ===== src/Chat/Heard.antt =====
-- What a listener prints of what a sender sends.
use ipc_project.Base.{
  ◌+◌, ◌<◌, ◌≡◌, refl, ap, ◌∙◌, true, some, List, [], ◌∷◌, ◌++◌, map, drop, take, take_all, length,
  length-append, length-drop, append_assoc, All, ok, arith,
}
use ipc_project.CLib.{Block, Text, IsText, strcpy, c_string}
use ipc_project.CLib.Memory.{write-append_rest}
use ipc_project.CLib.Strings.{c_string-append}
use ipc_project.Chat.{running}
use ipc_project.Chat.Sender.{send_line, send_lines, from_stdin_size, to_send_size, read_line}
use ipc_project.Chat.Listener.{receive, listen}

-- A line that fits into the array for it.
abbrev pub IsLine : Text → Type 0
IsLine line = IsText line × (length line < from_stdin_size)

-- The text of a message.
abbrev pub said : Text → Text → Text
said username line = username ++ (b':' ∷ line)

strcpy-front :
    (blk : Block) (t : Text)
    → length t < length blk
    → (rest : Block) × (strcpy blk 0 t ≡ ok (t ++ (0 ∷ rest)))
      × (length (t ++ (0 ∷ rest)) ≡ length blk)
unfolding strcpy
strcpy-front blk t h =
    let bytes : Block = t ++ (0 ∷ []) in
    let size : length bytes ≡ length t + 1 = length-append t (0 ∷ []) in
    let rest = drop (length bytes) blk in
    (
      rest,
      write-append_rest [] blk bytes (omega (arith, size)) ∙ ap ok (append_assoc t (0 ∷ []) rest),
      omega (arith, length-append t (0 ∷ rest), length-drop (length bytes) blk, size),
    )

IsText-append : (s t : Text) → IsText s → IsText t → IsText (s ++ t)
IsText-append [] t v w = w
IsText-append (b ∷ s) t v w = (v.0, IsText-append s t v.1 w)

module _ (username : Text) (tu : IsText username) (lu : length username < 30) where
  -- One round of the sender.
  sends :
      (from_stdin to_send line : Block)
      → IsLine line
      → length from_stdin ≡ from_stdin_size
      → length to_send ≡ to_send_size
      → (from_stdin' to_send' : Block) × (send_line username from_stdin to_send (some line)
          ≡ ok (from_stdin', to_send', said username line ++ (0 ∷ [])))
        × (length from_stdin' ≡ from_stdin_size)
        × (length to_send' ≡ to_send_size)
  unfolding send_line read_line
  sends from_stdin to_send line v lf lt =
      let whole : take 4095 line ≡ line = take_all 4095 line (omega (arith, v.1)) in
      let size : length (said username line) ≡ length username + length line + 1 =
        omega (arith, length-append username (b':' ∷ line)) in
      let (rest, one, same) = strcpy-front from_stdin line (omega (arith, v.1, lf)) in
      let (rest', two, same') =
        strcpy-front to_send (said username line) (omega (arith, v.1, lt, lu, size)) in
      (
        line ++ (0 ∷ rest),
        said username line ++ (0 ∷ rest'),
        rw
            (
              whole,
              one,
              c_string-append line rest v.0,
              two,
              c_string-append (said username line) rest'
                  (IsText-append username (b':' ∷ line) tu (omega arith, v.0)),
            )
            refl,
        same ∙ lf,
        same' ∙ lt,
      )

  -- One round of the listener.
  receives :
      (line held : Block)
      → IsLine line
      → c_string (receive (some (said username line ++ (0 ∷ []))) held) ≡ ok (said username line)
  unfolding receive
  receives line held v =
      let text = said username line in
      let size : length text ≡ length username + length line + 1 =
        omega (arith, length-append username (b':' ∷ line)) in
      let whole : take 4096 (text ++ (0 ∷ [])) ≡ text ++ (0 ∷ []) =
        take_all 4096 (text ++ (0 ∷ []))
          (omega (arith, v.1, lu, size, length-append text (0 ∷ []))) in
      let rest = drop (length (text ++ (0 ∷ []))) held in
      rw (whole, append_assoc text (0 ∷ []) rest)
        (c_string-append text rest (IsText-append username (b':' ∷ line) tu (omega arith, v.0)))

  -- A listener of the group who gets what a sender sends prints each line behind the user's name and
  -- a colon, in order, whatever its array held. The user's name has at most 29 characters, the lines
  -- are strings of at most 199, and every call of the system succeeds.
  pub listen-send_lines :
      (from_stdin to_send : Block) (lines : List Text) (held : Block → Block)
      → All IsLine lines
      → length from_stdin ≡ from_stdin_size
      → length to_send ≡ to_send_size
      → (datagrams : List Block) × (send_lines username from_stdin to_send
            (map (λ line. (some line, true)) lines)
          ≡ ok (datagrams, running))
        × (listen (map (λ datagram. (some datagram, held datagram)) datagrams)
            ≡ ok (map (said username) lines))
  unfolding send_lines listen
  listen-send_lines from_stdin to_send [] held v lf lt = ([], refl, refl)
  listen-send_lines from_stdin to_send (line ∷ lines) held v lf lt =
      let (from_stdin', to_send', sent, lf', lt') = sends from_stdin to_send line v.0 lf lt in
      let (datagrams, others, heard) =
        listen-send_lines from_stdin' to_send' lines held v.1 lf' lt' in
      let datagram : Block = said username line ++ (0 ∷ []) in
      (
        datagram ∷ datagrams,
        rw (sent, others) refl,
        rw (receives line (held datagram) v.0, heard) refl,
      )
