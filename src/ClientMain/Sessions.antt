-- ===== src/ClientMain/Sessions.antt =====
-- What a client may send, and when, as the menus of clnt_main.c have it.
use ipc_project.Base.{not, ℕ, ◌%◌, ◌≡◌, Bool, true, false, ◌||◌, ◌==◌, List, [], ◌∷◌, length, ok, ℤ}
use ipc_project.CLib.{Block, Text, string_at}
use ipc_project.Protocol.Layout.{
  register_request, login_request, logout_request, group_create_request, group_join_request,
  group_leave_request, group_all_available_request,
}
use ipc_project.ClientManager.{Sent}
use ipc_project.ClientManager.Structs.{third}
use ipc_project.ClientManager.Sending.{packet}
use ipc_project.ClientManager.Single.{has_one_string, short_packet}
use ipc_project.ClientMain.{
  Turn, Menu, Event, Page, asked, answered, left, main_page, login_page, finished,
}
use ipc_project.ClientMain.Action

-- The packets of a request with a user's name and another string. A registration and a login are
-- sent twice, and a packet that is no request comes before those with one string.
pub data IsRequest : ℕ → Text → Text → List Sent → Type 0 where
  signing :
      (tag : ℕ) (name pass : Text)
      → (tag == register_request || tag == login_request) ≡ true
      → IsRequest tag name pass (packet tag name pass ∷ packet tag name pass ∷ [])
  about_group :
      (tag : ℕ) (name group : Text)
      → (tag == group_create_request || tag == group_join_request || tag == group_leave_request)
        ≡ true
      → IsRequest tag name group (packet tag name group ∷ [])
  with_stray :
      (tag stray : ℕ) (name group : Text)
      → has_one_string tag ≡ true
      → stray % 256 ≡ third group % 256
      → IsRequest tag name group (short_packet stray name ∷ short_packet tag name ∷ [])

-- Who is logged in, until the program ends.
pub data Standing : Type 0 where
  nobody : Standing
  user : Text → Standing
  gone : Standing

-- The choices that a page has no case for.
abbrev pub is_idle : Standing → ℕ → Bool
is_idle nobody action =
    not (action == Action.register || action == Action.login || action == Action.exit)
is_idle (user name) action = not (
    action == Action.create_grp
    || action == Action.see_grps
    || action == Action.join_grp
    || action == Action.leave_grp
    || action == Action.logout)
is_idle gone action = true

-- What the user has typed, the latest first, who is logged in then, and what the client has done. A
-- user who logs out is out whatever the answer is.
pub data History : List Turn → Standing → List Event → Type 0 where
  begins : History [] nobody []
  registers :
      (turn : Turn) (reply : ℕ) (packets : List Sent) {turns : List Turn} {events : List Event}
      → History turns nobody events
      → (turn.action == Action.register) ≡ true
      → IsRequest register_request turn.first turn.second packets
      → History
          (turn ∷ turns)
          nobody
          (answered register_request reply ∷ asked register_request packets ∷ events)
  is_refused :
      (turn : Turn) (reply : ℕ) (packets : List Sent) {turns : List Turn} {events : List Event}
      → History turns nobody events
      → (turn.action == Action.login) ≡ true
      → (reply == 1) ≡ false
      → IsRequest login_request turn.first turn.second packets
      → History
          (turn ∷ turns)
          nobody
          (answered login_request reply ∷ asked login_request packets ∷ events)
  enters :
      (turn : Turn) (reply : ℕ) (packets : List Sent) {turns : List Turn} {events : List Event}
      → History turns nobody events
      → (turn.action == Action.login) ≡ true
      → (reply == 1) ≡ true
      → IsRequest login_request turn.first turn.second packets
      → History
          (turn ∷ turns)
          (user turn.first)
          (answered login_request reply ∷ asked login_request packets ∷ events)
  makes :
      (turn : Turn) (reply : ℕ) (name : Text) (packets : List Sent) {turns : List Turn}
      {events : List Event}
      → History turns (user name) events
      → (turn.action == Action.create_grp) ≡ true
      → IsRequest group_create_request name turn.first packets
      → History
          (turn ∷ turns)
          (user name)
          (answered group_create_request reply ∷ asked group_create_request packets ∷ events)
  joins :
      (turn : Turn) (reply : ℕ) (name : Text) (packets : List Sent) {turns : List Turn}
      {events : List Event}
      → History turns (user name) events
      → (turn.action == Action.join_grp) ≡ true
      → IsRequest group_join_request name turn.first packets
      → History
          (turn ∷ turns)
          (user name)
          (answered group_join_request reply ∷ asked group_join_request packets ∷ events)
  lists :
      (turn : Turn) (reply : ℕ) (name group : Text) (packets : List Sent) {turns : List Turn}
      {events : List Event}
      → History turns (user name) events
      → (turn.action == Action.see_grps) ≡ true
      → IsRequest group_all_available_request name group packets
      → History (turn ∷ turns) (user name) (
          answered group_all_available_request reply
          ∷ asked group_all_available_request packets
          ∷ events)
  leaves :
      (turn : Turn) (name : Text) (packets : List Sent) {turns : List Turn} {events : List Event}
      → History turns (user name) events
      → (turn.action == Action.leave_grp) ≡ true
      → IsRequest group_leave_request name turn.first packets
      → History (turn ∷ turns) (user name) (asked group_leave_request packets ∷ events)
  logs_out :
      (turn : Turn) (reply : ℕ) (name group : Text) (packets : List Sent) {turns : List Turn}
      {events : List Event}
      → History turns (user name) events
      → (turn.action == Action.logout) ≡ true
      → IsRequest logout_request name group packets
      → History
          (turn ∷ turns)
          nobody
          (answered logout_request reply ∷ asked logout_request packets ∷ events)
  exits :
      (turn : Turn) (sockets : List ℤ) {turns : List Turn} {events : List Event}
      → History turns nobody events
      → (turn.action == Action.exit) ≡ true
      → History (turn ∷ turns) gone (left sockets ∷ events)
  idles :
      (turn : Turn) (standing : Standing) {turns : List Turn} {events : List Event}
      → History turns standing events
      → is_idle standing turn.action ≡ true
      → History (turn ∷ turns) standing events

-- The page for groups is shown to the user whose name is in the array, and the first one to nobody.
abbrev pub IsShown : Page → Block → Standing → Type 0
IsShown login_page user_name standing =
    (name : Text) × (standing ≡ user name) × (string_at user_name 0 ≡ ok name)
IsShown main_page user_name standing = standing ≡ nobody
IsShown finished user_name standing = standing ≡ gone

-- The menu after these turns, of which the latest is the first.
pub record IsOrderly (turns : List Turn) (menu : Menu) : Type 0 where
  pub standing : Standing
  pub history : History turns standing menu.events
  pub shown : IsShown menu.page menu.user_name standing
  pub name_size : length menu.user_name ≡ 30
  pub pass_size : length menu.pass ≡ 30
  pub grp_size : menu.page ≡ login_page → length menu.grp_name ≡ 30
