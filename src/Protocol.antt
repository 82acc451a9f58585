-- ===== src/Protocol.antt =====
-- protocol.h and protocol.c: the messages between client and server as bytes.
pub mod Layout
pub mod Requests
pub mod Replies
pub mod Dispatch
pub mod Wire
pub mod Unpack
pub mod RoundTrip
pub mod ReplyTrip
pub mod GroupReplyTrip
pub mod SeeAllTrip
