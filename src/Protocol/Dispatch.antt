-- ===== src/Protocol/Dispatch.antt =====
-- protocol.c: `ProtocolPack`, `ProtocolUnpack` and `ProtocolGetTag`. A pointer may be NULL (`none`).
use ipc_project.Base.{
  ℕ, ◌-◌, ℤ, pos, minus_one, Option, none, some, ◌||◌, ltb, ◌==◌, if◌then◌else◌, Exec, ok, ◌>>=◌,
}
use ipc_project.CLib.{Block, load, char_to_word}
use ipc_project.Protocol.Layout.{
  register_request, register_reply, login_request, login_reply, logout_request, logout_reply,
  group_create_request, group_create_reply, group_join_request, group_join_reply,
  group_leave_request, group_leave_reply, group_all_available_request, group_all_available_reply,
  error_tag, number_of_tags,
}
use ipc_project.Protocol.Requests.{
  pack_register_or_login_request, unpack_register_or_login_request,
  pack_log_out_or_see_groups_request, unpack_log_out_or_see_groups_request, pack_grp_req,
  unpack_grp_req,
}
use ipc_project.Protocol.Replies.{
  pack_reply, unpack_reply, pack_group_create_reply, unpack_group_create_reply,
  pack_see_all_groups_reply, unpack_see_all_groups_reply,
}

-- The `switch` of `ProtocolPack`.
unfoldable pub pack_by_tag : Block → Block → ℕ → Exec (ℤ × Block)
pack_by_tag message buffer tag =
    if tag == register_request || tag == login_request
    then pack_register_or_login_request message buffer
    else if tag == logout_request || tag == group_all_available_request
    then pack_log_out_or_see_groups_request message buffer
    else if tag == group_create_request || tag == group_join_request || tag == group_leave_request
    then pack_grp_req message buffer
    else if tag == register_reply
        || tag == login_reply
        || tag == logout_reply
        || tag == group_leave_reply
    then pack_reply message buffer
    else if tag == group_create_reply || tag == group_join_reply
    then pack_group_create_reply message buffer
    else if tag == group_all_available_reply
    then pack_see_all_groups_reply message buffer
    else ok (minus_one, buffer)

-- The value returned, and the buffer afterwards.
unfoldable pub protocol_pack : Option Block → Option Block → ℕ → Exec (ℤ × Option Block)
unfolding pack_by_tag
protocol_pack none buffer tag = ok (minus_one, buffer)
protocol_pack (some message) none tag = ok (minus_one, none)
protocol_pack (some message) (some buffer) tag =
    if ltb tag 1 || ltb (number_of_tags - 2) tag
    then ok (minus_one, some buffer)
    else (pack_by_tag message buffer tag >>= λ r. ok (r.0, some r.1))

-- The `switch` of `ProtocolUnpack`.
unfoldable pub unpack_by_tag : Block → Block → ℕ → Exec (ℤ × Block)
unpack_by_tag message buffer tag =
    if tag == register_request || tag == login_request
    then unpack_register_or_login_request message buffer
    else if tag == logout_request || tag == group_all_available_request
    then unpack_log_out_or_see_groups_request message buffer
    else if tag == group_create_request || tag == group_join_request || tag == group_leave_request
    then unpack_grp_req message buffer
    else if tag == register_reply
        || tag == login_reply
        || tag == logout_reply
        || tag == group_leave_reply
    then unpack_reply message buffer
    else if tag == group_create_reply || tag == group_join_reply
    then unpack_group_create_reply message buffer
    else if tag == group_all_available_reply
    then unpack_see_all_groups_reply message buffer
    else ok (pos 0, message)

-- The value returned, and the message afterwards.
unfoldable pub protocol_unpack : Option Block → Option Block → ℕ → Exec (ℤ × Option Block)
unfolding unpack_by_tag
protocol_unpack none buffer tag = ok (minus_one, none)
protocol_unpack (some message) none tag = ok (minus_one, some message)
protocol_unpack (some message) (some buffer) tag =
    if ltb tag 1 || ltb 14 tag
    then ok (minus_one, some message)
    else (unpack_by_tag message buffer tag >>= λ r. ok (r.0, some r.1))

unfoldable pub protocol_get_tag : Option Block → Exec ℕ
protocol_get_tag none = ok error_tag
protocol_get_tag (some buffer) = do tag ← load buffer 0; ok (char_to_word tag)
