-- ===== src/Protocol/Layout.antt =====
-- protocol.h: the tags, and the structs as blocks of bytes, laid out as a C compiler does on x86-64
-- (an enum takes four bytes and is aligned to four). The callers cast a pointer to one struct into a
-- pointer to another, so a message is a block, and each struct is a view of one.
use ipc_project.Base.{ℕ, Exec, ok, ◌>>=◌}
use ipc_project.CLib.{Block, Text, load, load32, string_at}

abbrev pub max_size : ℕ
max_size = 30

abbrev pub reply_success : ℕ
reply_success = 0

abbrev pub max_size_groups : ℕ
max_size_groups = 1000

-- The enum `Tag`. Its values are plain numbers, since the sources cast any byte to it.
abbrev pub register_request : ℕ
register_request = 1

abbrev pub register_reply : ℕ
register_reply = 2

abbrev pub login_request : ℕ
login_request = 3

abbrev pub login_reply : ℕ
login_reply = 4

abbrev pub logout_request : ℕ
logout_request = 5

abbrev pub logout_reply : ℕ
logout_reply = 6

abbrev pub group_create_request : ℕ
group_create_request = 7

abbrev pub group_create_reply : ℕ
group_create_reply = 8

abbrev pub group_join_request : ℕ
group_join_request = 9

abbrev pub group_join_reply : ℕ
group_join_reply = 10

abbrev pub group_leave_request : ℕ
group_leave_request = 11

abbrev pub group_leave_reply : ℕ
group_leave_reply = 12

abbrev pub group_all_available_request : ℕ
group_all_available_request = 13

abbrev pub group_all_available_reply : ℕ
group_all_available_reply = 14

abbrev pub error_tag : ℕ
error_tag = 15

abbrev pub number_of_tags : ℕ
number_of_tags = 16

-- `RegisterOrLoginRequest`: username at 0, password at 30, tag at 60.
pub record RegisterOrLoginRequest : Type 0 where
  pub username : Text
  pub password : Text
  pub tag : ℕ

abbrev pub register_or_login_size : ℕ
register_or_login_size = 64

unfoldable pub read_register_or_login : Block → Exec RegisterOrLoginRequest
read_register_or_login blk = do
  u ← string_at blk 0
  p ← string_at blk 30
  t ← load32 blk 60
  ok (record { username = u; password = p; tag = t })

-- `GrpReqStruct`: username at 0, group name at 30, tag at 60.
pub record GrpReqStruct : Type 0 where
  pub username : Text
  pub group_name : Text
  pub tag : ℕ

abbrev pub grp_req_size : ℕ
grp_req_size = 64

unfoldable pub read_grp_req : Block → Exec GrpReqStruct
read_grp_req blk = do
  u ← string_at blk 0
  g ← string_at blk 30
  t ← load32 blk 60
  ok (record { username = u; group_name = g; tag = t })

-- `LogOutOrSeeGroupsReq`: username at 0, tag at 32.
pub record LogOutOrSeeGroupsReq : Type 0 where
  pub username : Text
  pub tag : ℕ

abbrev pub log_out_or_see_groups_size : ℕ
log_out_or_see_groups_size = 36

unfoldable pub read_log_out_or_see_groups : Block → Exec LogOutOrSeeGroupsReq
read_log_out_or_see_groups blk = do
  u ← string_at blk 0
  t ← load32 blk 32
  ok (record { username = u; tag = t })

-- `Reply`: reply at 0, tag at 4.
pub record Reply : Type 0 where
  pub reply : ℕ
  pub tag : ℕ

abbrev pub reply_size : ℕ
reply_size = 8

unfoldable pub read_reply : Block → Exec Reply
read_reply blk = do r ← load blk 0; t ← load32 blk 4; ok (record { reply = r; tag = t })

-- `GroupCreateReply`: tag at 0, reply at 4, ip at 5, port at 20.
pub record GroupCreateReply : Type 0 where
  pub tag : ℕ
  pub reply : ℕ
  pub ip : Text
  pub port : Text

abbrev pub group_create_reply_size : ℕ
group_create_reply_size = 28

unfoldable pub read_group_create_reply : Block → Exec GroupCreateReply
read_group_create_reply blk = do
  t ← load32 blk 0
  r ← load blk 4
  i ← string_at blk 5
  p ← string_at blk 20
  ok (record { tag = t; reply = r; ip = i; port = p })

-- `SeeAllGroupsReply`: names at 0, reply at 1000, tag at 1004.
pub record SeeAllGroupsReply : Type 0 where
  pub all_group_names : Text
  pub reply : ℕ
  pub tag : ℕ

abbrev pub see_all_groups_reply_size : ℕ
see_all_groups_reply_size = 1008

unfoldable pub read_see_all_groups_reply : Block → Exec SeeAllGroupsReply
read_see_all_groups_reply blk = do
  n ← string_at blk 0
  r ← load blk 1000
  t ← load32 blk 1004
  ok (record { all_group_names = n; reply = r; tag = t })
