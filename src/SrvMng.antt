-- ===== src/SrvMng.antt =====
-- srv_mng.c: what the server does with a message.
--
-- `GotMessage` does not touch `m_serverNet`, so the struct that it works on has only the other members;
-- SrvMng/Lifetime has all three. The packets sent are part of the result. Nothing of `printf` is
-- modelled.
pub mod Handlers
pub mod Replies
pub mod Requests
pub mod Sessions
pub mod Logout
pub mod GroupReplies
pub mod Malformed
pub mod Leave
pub mod Groups
pub mod Lifetime
pub mod Ready
pub mod NamesReply
pub mod SeeGroups
pub mod Network
pub mod Replay
pub mod Served
pub mod Twice
pub mod Shutdown
