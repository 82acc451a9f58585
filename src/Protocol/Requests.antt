-- ===== src/Protocol/Requests.antt =====
-- protocol.c: packing and unpacking the requests. Each returns the `int` of the C function and the
-- block that it wrote to. An array inside a struct is never NULL, so the tests of the members
-- against NULL never pass and have no counterpart here.
use ipc_project.Base.{◌+◌, ℤ, pos, Exec, ok, ◌>>=◌}
use ipc_project.CLib.{
  Block, load, load32, store, store32, strlen, strncpy, unsigned_char, char_to_word, char_to_size,
}
use ipc_project.Protocol.Layout.{reply_success}

-- Tag, total length, length and characters of the name, length and characters of the password.
unfoldable pub pack_register_or_login_request : Block → Block → Exec (ℤ × Block)
pack_register_or_login_request request buffer = do
  length_user_name ← strlen request 0
  length_password ← strlen request 30
  let length_total = length_user_name + length_password + 4
  tag ← load32 request 60
  buffer ← store buffer 0 (unsigned_char tag)
  buffer ← store buffer 1 (unsigned_char length_total)
  buffer ← store buffer 2 (unsigned_char length_user_name)
  buffer ← strncpy buffer 3 request 0 length_user_name
  buffer ← store buffer (3 + length_user_name) (unsigned_char length_password)
  buffer ← strncpy buffer (4 + length_user_name) request 30 length_password
  ok (pos length_total, buffer)

unfoldable pub unpack_register_or_login_request : Block → Block → Exec (ℤ × Block)
unpack_register_or_login_request request buffer = do
  tag ← load buffer 0
  request ← store32 request 60 (char_to_word tag)
  length_user_name ← load buffer 2
  let name_size = char_to_size length_user_name
  request ← strncpy request 0 buffer 3 name_size
  length_password ← load buffer (3 + name_size)
  request ← strncpy request 30 buffer (4 + name_size) (char_to_size length_password)
  ok (pos reply_success, request)

unfoldable pub pack_log_out_or_see_groups_request : Block → Block → Exec (ℤ × Block)
pack_log_out_or_see_groups_request request buffer = do
  length_user_name ← strlen request 0
  let length_total = length_user_name + 3
  tag ← load32 request 32
  buffer ← store buffer 0 (unsigned_char tag)
  buffer ← store buffer 1 (unsigned_char length_total)
  buffer ← store buffer 2 (unsigned_char length_user_name)
  buffer ← strncpy buffer 3 request 0 length_user_name
  ok (pos length_total, buffer)

unfoldable pub unpack_log_out_or_see_groups_request : Block → Block → Exec (ℤ × Block)
unpack_log_out_or_see_groups_request request buffer = do
  tag ← load buffer 0
  request ← store32 request 32 (char_to_word tag)
  length_user_name ← load buffer 2
  request ← strncpy request 0 buffer 3 (char_to_size length_user_name)
  ok (pos reply_success, request)

unfoldable pub pack_grp_req : Block → Block → Exec (ℤ × Block)
pack_grp_req request buffer = do
  length_user_name ← strlen request 0
  grp_name_len ← strlen request 30
  let length_total = length_user_name + grp_name_len + 4
  tag ← load32 request 60
  buffer ← store buffer 0 (unsigned_char tag)
  buffer ← store buffer 1 (unsigned_char length_total)
  buffer ← store buffer 2 (unsigned_char length_user_name)
  buffer ← strncpy buffer 3 request 0 length_user_name
  buffer ← store buffer (3 + length_user_name) (unsigned_char grp_name_len)
  buffer ← strncpy buffer (4 + length_user_name) request 30 grp_name_len
  ok (pos length_total, buffer)

unfoldable pub unpack_grp_req : Block → Block → Exec (ℤ × Block)
unpack_grp_req request buffer = do
  tag ← load buffer 0
  request ← store32 request 60 (char_to_word tag)
  length_user_name ← load buffer 2
  let name_size = char_to_size length_user_name
  request ← strncpy request 0 buffer 3 name_size
  grp_name_len ← load buffer (3 + name_size)
  request ← strncpy request 30 buffer (4 + name_size) (char_to_size grp_name_len)
  ok (pos reply_success, request)
