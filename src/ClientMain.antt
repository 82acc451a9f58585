-- ===== src/ClientMain.antt =====
-- clnt_main.c: the menus of the client.
--
-- A turn is one round of a menu: what the user types, and what the calls of the client manager meet.
-- The flags that nothing reads (`registFlg`, `loginFlg`, `returnToMainPage`) are left out.
pub mod Action
pub mod Results
pub mod Sessions
pub mod Pages
pub mod LoginTurns
pub mod MainTurns
pub mod Turns
use ipc_project.ClientMain.Action
use ipc_project.Base.{
  ℕ, ℤ, pos, minus_one, Bool, true, false, Option, none, some, List, [], ◌∷◌, ◌++◌, ◌==◌,
  if◌then◌else◌, Exec, ok, ◌>>=◌,
}
use ipc_project.CLib.{Block, Text, strcpy, string_at}
use ipc_project.Protocol.Layout.{
  register_request, login_request, logout_request, group_create_request, group_join_request,
  group_leave_request, group_all_available_request,
}
use ipc_project.ClientNet.{Client}
use ipc_project.ClientManager.{ClientMemory, Sent, pack_and_send_via_client_net}
use ipc_project.ClientManager.Receiving.{
  Receiving, Connecting, connect_to_client_net, receive_via_client_net, client_disconnected,
}

abbrev pub reply_yes : ℕ
reply_yes = 1

-- The action that the user chooses and the words that the user then types, if the case reads them.
-- `grp_name` is what that array holds where `LoginPage` is entered in this turn.
pub record Turn : Type 0 where
  pub action : ℕ
  pub first : Text
  pub second : Text
  pub sending : ClientMemory
  pub receiving : Receiving
  pub grp_name : Block

-- What happens, the latest first: a request with its packets, the value that answers it, and a
-- closed connection.
pub data Event : Type 0 where
  asked : ℕ → List Sent → Event
  answered : ℕ → ℕ → Event
  left : List ℤ → Event

unfoldable pub check_reply : ℕ → ℤ
check_reply reply = if reply == reply_yes then pos reply_yes else minus_one

-- `PackAndSendViaClientNET` with two arrays of characters. What it returns is not looked at.
unfoldable pub ask : Turn → Block → Block → ℕ → List Event → Exec (List Event)
ask turn user_name other tag events = do
  first ← string_at user_name 0
  second ← string_at other 0
  (signal, packets) ← pack_and_send_via_client_net turn.sending (some first) (some second) tag
  ok (asked tag packets ∷ events)

-- The same, and the answer to it.
unfoldable pub ask_and_receive :
    Turn → Option Client → Block → Block → ℕ → List Event → Exec (ℕ × List Event)
unfolding ask
ask_and_receive turn client user_name other tag events = do
  events ← ask turn user_name other tag events
  reply ← receive_via_client_net turn.receiving client
  ok (reply, answered tag reply ∷ events)

-- `main` and, within it, `LoginPage`: where the program stands, its arrays and what has happened.
pub data Page : Type 0 where
  main_page login_page finished : Page

pub record Menu : Type 0 where
  pub page : Page
  pub client : Option Client
  pub user_name : Block
  pub pass : Block
  pub grp_name : Block
  pub events : List Event

-- The cases of `LoginPage` that read a group's name and wait for an answer.
unfoldable pub name_and_ask : Turn → ℕ → Menu → Exec Menu
unfolding ask_and_receive
name_and_ask turn tag menu = do
  grp_name ← strcpy menu.grp_name 0 turn.first
  (reply, events) ← ask_and_receive turn menu.client menu.user_name grp_name tag menu.events
  ok (record menu { grp_name = grp_name; events = events })

-- A round of `LoginPage`. Another action does nothing, and nobody waits for the answer to leaving a
-- group.
unfoldable pub login_turn : Turn → Menu → Exec Menu
unfolding name_and_ask
login_turn turn menu =
    if turn.action == Action.create_grp
    then name_and_ask turn group_create_request menu
    else if turn.action == Action.see_grps
    then (do
      (reply, events) ←
          ask_and_receive turn menu.client menu.user_name menu.grp_name group_all_available_request
            menu.events
      ok (record menu { events = events }))
    else if turn.action == Action.join_grp
    then name_and_ask turn group_join_request menu
    else if turn.action == Action.leave_grp
    then (do
      grp_name ← strcpy menu.grp_name 0 turn.first
      events ← ask turn menu.user_name grp_name group_leave_request menu.events
      ok (record menu { grp_name = grp_name; events = events }))
    else if turn.action == Action.logout
    then (do
      (reply, events) ←
          ask_and_receive turn menu.client menu.user_name menu.grp_name logout_request menu.events
      ok (record menu { page = main_page; events = events }))
    else ok menu

abbrev is_one : ℤ → Bool
is_one (pos n) = n == 1
is_one z = false

-- The two cases of `main` that read a name and a password.
unfoldable pub sign : Turn → ℕ → Menu → Exec (ℕ × Menu)
unfolding ask_and_receive
sign turn tag menu = do
  user_name ← strcpy menu.user_name 0 turn.first
  pass ← strcpy menu.pass 0 turn.second
  (reply, events) ← ask_and_receive turn menu.client user_name pass tag menu.events
  ok (reply, record menu { user_name = user_name; pass = pass; events = events })

-- A round of `main`.
unfoldable pub main_turn : Turn → Menu → Exec Menu
unfolding sign check_reply
main_turn turn menu =
    if turn.action == Action.register
    then (sign turn register_request menu >>= λ r. ok r.1)
    else if turn.action == Action.login
    then (do
      (reply, menu) ← sign turn login_request menu
      ok (
          if is_one (check_reply reply)
          then record menu { page = login_page; grp_name = turn.grp_name }
          else menu))
    else if turn.action == Action.exit
    then ok (record menu {
      page = finished;
      events = left (client_disconnected menu.client) ∷ menu.events;
    })
    else ok menu

unfoldable pub turn_at : Page → Turn → Menu → Exec Menu
unfolding main_turn login_turn
turn_at main_page turn menu = main_turn turn menu
turn_at login_page turn menu = login_turn turn menu
turn_at finished turn menu = ok menu

-- The turns one after the other; once the program has finished there are none.
unfoldable pub run_turns : List Turn → Menu → Exec Menu
unfolding turn_at
run_turns [] menu = ok menu
run_turns (turn ∷ turns) menu = do menu ← turn_at menu.page turn menu; run_turns turns menu

-- `main`, with what its arrays hold before they are read into.
unfoldable pub main : Connecting → Block → Block → List Turn → Exec Menu
unfolding run_turns
main connecting user_name pass turns = run_turns turns (record {
  page = main_page;
  client = connect_to_client_net connecting;
  user_name = user_name;
  pass = pass;
  grp_name = [];
  events = [];
})
