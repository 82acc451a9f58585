-- ===== src/Lib.antt =====
-- A group-chat server and its client: the codec of their messages, the managers of users and
-- groups, the loop of the server and the menus of the client.
--
-- The program. A client (clnt_main.c over client_manager.c and client_net.c) sends requests over
-- TCP as packets (protocol.c). The network module of the server (server_net.c) takes connections
-- and hands what arrives to srv_mng.c, which unpacks it, calls the manager of users (usr_mng.c
-- over user.c) or of groups (grp_mng.c over group.c), and packs a reply. A group is given a
-- multicast address from a queue of a hundred, over which its members talk (Sender.c,
-- Listener.c).
--
-- The files.
-- - Base: the names that all modules share, Boolean tests, lists over native numbers, and
--   `Exec`, a value or a fault.
-- - CLib: what the sources use of the C library and of the machine, over blocks of bytes;
--   CLib/Memory, Strings, Overlay and Fields are its laws, CLib/Atoi is `atoi`.
-- - Containers: the interfaces of the hash map, queue and vector (HashMap.h, genqueue.h,
--   vector.h) and the list (genlist.h and listitr.h, in Containers/Chain) with their documented
--   laws, and for each a value that meets them; Containers/Objects is what both managers have
--   in common, a map of pointers to objects that are changed, and Containers/Names a map that
--   is used as a set of names.
-- - Protocol: protocol.h (Layout) and protocol.c (Requests, Replies, Dispatch); Wire, Unpack,
--   RoundTrip, ReplyTrip, GroupReplyTrip and SeeAllTrip are about the wire formats.
-- - User and UsrMng: user.c and usr_mng.c; UsrMng/Directory is the view and the invariant,
--   UsrMng/Spec the abstract steps, UsrMng/Sessions, Registration and Groups are about the
--   operations that refine them, and Creation about a manager that is made.
-- - Group and GrpMng: group.c and grp_mng.c; GrpMng/Decimal is `integerLength` and `myItoA`,
--   and GrpMng/Groups the manager, with Groups/Membership (who joins and leaves) and
--   Groups/Listing (the list of all names). GrpMng/Directory is the view, the invariant and
--   what the calls promise; Numbers, Creation, NewGroup, Members, LeaveAll, Names and Deletion
--   are about one operation each, Addresses and Reachable about all of them together.
-- - SrvMng: srv_mng.c; SrvMng/Handlers is `GotMessage`, Requests and Replies what arrives and
--   what is sent, Sessions, Logout, Groups, Leave and SeeGroups (with GroupReplies and
--   NamesReply) the whole way from a client's message to the answer, and Malformed is about
--   packets that no client packs. SrvMng/Lifetime is how the server is made, run and destroyed,
--   with srv_main.c, Ready what is made, and Shutdown how that ends. Network, Served, Twice and
--   Replay put `GotMessage` behind the network module: a packet in its buffer, a login from one
--   end to the other, a registration that is sent twice, and a message that is handled twice.
-- - ServerNet: server_net.c; ServerNet/Setup is the socket that listens, Loop `RunServer` (with
--   Loop/Calls, the calls that it makes), and Descriptors the sets of descriptors. Clean,
--   Serving and Scan are about the parts of a round and the state between rounds, Visits about
--   where a round can fault, Shutdown and Rounds about the end of the loop and what is closed
--   then, Starved about descriptors that are never asked about, and Handing about what the handler
--   is given.
-- - ClientNet: client_net.c.
-- - ClientManager: client_manager.c; ClientManager/Structs is about the structs that it fills
--   in, Sending and Single about what it sends, Receiving is the connection and what is received,
--   and Answered is about the server's answers.
-- - ClientMain: clnt_main.c; ClientMain/Action is the choices of a user. Results is about what
--   holds of a run, Sessions about which requests a client may send and when, Pages about the
--   calls that send one, LoginTurns about the page for groups, MainTurns about the first page, and
--   Turns about the whole run.
-- - Chat: Sender.c (Chat/Sender) and Listener.c (Chat/Listener), the chat of a group; Chat/Heard
--   is about what a listener prints.
-- - Tests: runs on concrete data, and the theorems at concrete inputs.
--
-- The model. A function of the source has its name in lower case with underscores
-- (`RegisterNewUser` is `register_new_user`), constants and enumerators likewise. A pointer that
-- may be NULL is an `Option`. A message is a block of bytes and the structs are views of it,
-- since the callers cast one struct pointer into another; members lie as on x86-64. Every access
-- is checked against the end of its block: one outside is a `fault`, as is a read of freed memory
-- or of a value that a function does not return. A `char` is signed. Users and groups stand in
-- heaps, since maps hold pointers and the code changes what they point to. Strings that a map
-- keeps by pointer are kept as texts; no caller in the sources changes them later. Which
-- allocations succeed is an argument of each call. Lengths of strings are unbounded numbers,
-- below the range of `int` in every use.
--
-- What the system does is an argument. A round of `RunServer` has `select` as a function of what
-- it is given, and the outcomes of `accept` and of each `recv`; what the loop sends, closes and
-- tells the application is a list of events. A turn of the client's menus has what the user types
-- and the outcomes of the calls in it, and `main` is run over a list of turns. The server's
-- handler is a function that may fault, from its context to a context and messages; only its
-- context is shared with the loop. A variable that the code reads before it is set is an argument
-- too: the server that `CreateServer` does not return, the pointers in `ReceiveViaClientNET`, and
-- the first content of buffers.
--
-- Fuel. `integerLength` loops on a number that is divided by ten in each round, so the number
-- itself is fuel enough. The outer loop of `myItoA` has one more than the number; its first round
-- uses the number up. The loop of `CleanMyList` has one more than the length of the list, and
-- ServerNet/Clean is about that. The scan over the ready descriptors has the 1024 of a set: the
-- highest one is below that. All other loops run over lists or a fixed number of rounds;
-- `RunServer` and the client's `main` run over the rounds and turns that happen, and may be left
-- waiting for one more.
--
-- Not modelled: printing, memory that is leaked, and Multi.c, which starts and kills the terminals
-- of the chat by shell commands and does not compile as it stands. main.c, draft.c and
-- server_manager.c are drafts that the makefile does not build.
pub mod Base
pub mod CLib
pub mod Containers
pub mod Protocol
pub mod User
pub mod UsrMng
pub mod Group
pub mod GrpMng
pub mod ServerNet
pub mod SrvMng
pub mod ClientNet
pub mod Chat
pub mod ClientManager
pub mod ClientMain
mod Tests
