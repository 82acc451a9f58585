-- ===== src/CLib/Overlay.antt =====
-- A buffer that is written from its head on: `overlay written buffer` is the buffer once the bytes
-- `written` lie over its first bytes.
use ipc_project.Base.{
  ℕ, suc, ◌+◌, ◌≤◌, ◌≡◌, refl, ap, ◌∙◌, [], ◌∷◌, ◌++◌, length, drop, arith, length-append,
  length-drop, drop-drop, append_assoc, ok,
}
use ipc_project.CLib.{Block, Text, store, strncpy, strncpy_bytes}
use ipc_project.CLib.Memory.{write-append_rest}
use ipc_project.CLib.Strings.{strncpy-append_rest}

unfoldable pub overlay : Block → Block → Block
overlay written buffer = written ++ drop (length written) buffer

pub overlay-nil : (buffer : Block) → overlay [] buffer ≡ buffer
unfolding overlay
overlay-nil buffer = refl

overlay_more :
    (w bytes buffer : Block)
    → w ++ (bytes ++ drop (length bytes) (drop (length w) buffer)) ≡ overlay (w ++ bytes) buffer
unfolding overlay
overlay_more w bytes buffer = rw (drop-drop, length-append, append_assoc)

-- One byte, or a whole string, goes to the end of what was written.
pub store-overlay :
    (w buffer : Block) (off b : ℕ)
    → off ≡ length w
    → suc (length w) ≤ length buffer
    → store (overlay w buffer) off b ≡ ok (overlay (w ++ (b ∷ [])) buffer)
unfolding store overlay
store-overlay w buffer off b e h =
    let room : 1 ≤ length (drop (length w) buffer) = omega (arith, length-drop (length w) buffer) in
    rw e (
      write-append_rest w (drop (length w) buffer) (b ∷ []) room
      ∙ ap ok (overlay_more w (b ∷ []) buffer))

pub strncpy-overlay :
    (w buffer src : Block) (off src_off n : ℕ) (t : Text)
    → strncpy_bytes (length t) (drop src_off src) ≡ ok t
    → off ≡ length w
    → n ≡ length t
    → length w + length t ≤ length buffer
    → strncpy (overlay w buffer) off src src_off n ≡ ok (overlay (w ++ t) buffer)
unfolding overlay
strncpy-overlay w buffer src off src_off n t copied e m h =
    let room : length t ≤ length (drop (length w) buffer) =
      omega (arith, length-drop (length w) buffer) in
    rw (e, m)
      (strncpy-append_rest w (drop (length w) buffer) src src_off t copied room
        ∙ ap ok (overlay_more w t buffer))
