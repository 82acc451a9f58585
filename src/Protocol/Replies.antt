-- ===== src/Protocol/Replies.antt =====
-- protocol.c: packing and unpacking the replies.
use ipc_project.Base.{ℕ, ◌+◌, ℤ, pos, minus_one, Exec, ok, ◌>>=◌, ◌==◌, ◌||◌, if◌then◌else◌}
use ipc_project.CLib.{
  Block, load, load32, store, store32, strlen, strncpy, unsigned_char, char_to_word, char_to_size,
}
use ipc_project.Protocol.Layout.{
  reply_success, register_reply, login_reply, logout_reply, group_leave_reply,
  group_all_available_reply,
}

-- Four bytes; the length of the reply itself is one.
unfoldable pub write_reply : Block → Block → ℕ → Exec (ℤ × Block)
write_reply reply buffer tag = do
  buffer ← store buffer 0 (unsigned_char tag)
  buffer ← store buffer 1 4
  buffer ← store buffer 2 1
  value ← load reply 0
  buffer ← store buffer 3 (unsigned_char value)
  ok (pos 4, buffer)

unfoldable pub pack_reply : Block → Block → Exec (ℤ × Block)
unfolding write_reply
pack_reply reply buffer = do
  tag ← load32 reply 4
  if tag == register_reply || tag == login_reply || tag == logout_reply || tag == group_leave_reply
      then write_reply reply buffer tag
      else ok (minus_one, buffer)

unfoldable pub unpack_reply : Block → Block → Exec (ℤ × Block)
unpack_reply reply buffer = do
  tag ← load buffer 0
  reply ← store32 reply 4 (char_to_word tag)
  value ← load buffer 3
  reply ← store reply 0 value
  ok (pos reply_success, reply)

unfoldable pub pack_group_create_reply : Block → Block → Exec (ℤ × Block)
pack_group_create_reply reply buffer = do
  ip_length ← strlen reply 5
  port_length ← strlen reply 20
  let total_length = 5 + 1 + ip_length + port_length
  tag ← load32 reply 0
  buffer ← store buffer 0 (unsigned_char tag)
  buffer ← store buffer 1 (unsigned_char total_length)
  buffer ← store buffer 2 1
  value ← load reply 4
  buffer ← store buffer 3 (unsigned_char value)
  buffer ← store buffer 4 (unsigned_char ip_length)
  buffer ← strncpy buffer 5 reply 5 ip_length
  buffer ← store buffer (5 + ip_length) (unsigned_char port_length)
  buffer ← strncpy buffer (6 + ip_length) reply 20 port_length
  ok (pos total_length, buffer)

unfoldable pub unpack_group_create_reply : Block → Block → Exec (ℤ × Block)
unpack_group_create_reply reply buffer = do
  tag ← load buffer 0
  reply ← store32 reply 0 (char_to_word tag)
  value ← load buffer 3
  reply ← store reply 4 value
  ip_length ← load buffer 4
  let ip_size = char_to_size ip_length
  reply ← strncpy reply 5 buffer 5 ip_size
  port_length ← load buffer (5 + ip_size)
  reply ← strncpy reply 20 buffer (6 + ip_size) (char_to_size port_length)
  ok (pos reply_success, reply)

unfoldable pub write_see_all_groups_reply : Block → Block → ℕ → Exec (ℤ × Block)
write_see_all_groups_reply reply buffer tag = do
  group_names_length ← strlen reply 0
  let total_length = 4 + group_names_length
  buffer ← store buffer 0 (unsigned_char tag)
  buffer ← store buffer 1 (unsigned_char total_length)
  buffer ← store buffer 2 1
  value ← load reply 1000
  buffer ← store buffer 3 (unsigned_char value)
  buffer ← strncpy buffer 4 reply 0 group_names_length
  ok (pos total_length, buffer)

unfoldable pub pack_see_all_groups_reply : Block → Block → Exec (ℤ × Block)
unfolding write_see_all_groups_reply
pack_see_all_groups_reply reply buffer = do
  tag ← load32 reply 1004
  if tag == group_all_available_reply
      then write_see_all_groups_reply reply buffer tag
      else ok (minus_one, buffer)

-- The length of the names is read at 4, and the names from 4 on.
unfoldable pub unpack_see_all_groups_reply : Block → Block → Exec (ℤ × Block)
unpack_see_all_groups_reply reply buffer = do
  tag ← load buffer 0
  reply ← store32 reply 1004 (unsigned_char tag)
  value ← load buffer 3
  reply ← store reply 1000 (unsigned_char value)
  length_group_names ← load buffer 4
  reply ← strncpy reply 0 buffer 4 (unsigned_char length_group_names)
  ok (pos reply_success, reply)
