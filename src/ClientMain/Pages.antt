-- ===== src/ClientMain/Pages.antt =====
-- Which requests the menus of clnt_main.c send.
use ipc_project.Base.{
  ℕ, ◌<◌, ◌≡◌, refl, ap, Bool-cases, inl, inr, some, true, ◌||◌, ◌==◌, List, ◌∷◌, length, ok, arith,
}
use ipc_project.CLib.{Block, Text, IsText, string_at}
use ipc_project.Protocol.Layout.{register_request, login_request}
use ipc_project.SrvMng.Requests.{has_two_strings}
use ipc_project.ClientManager.{Sent, pack_and_send_via_client_net}
use ipc_project.ClientManager.Sending.{plenty, pack_and_send_via_client_net_lem}
use ipc_project.ClientManager.Single.{has_one_string, pack_and_send_via_client_net-short}
use ipc_project.ClientManager.Receiving.{receive_via_client_net}
use ipc_project.ClientMain.{Turn, Menu, Event, asked, answered, ask, ask_and_receive}
use ipc_project.ClientMain.Results.{Ensures, always, then_ensures, IsString, string_at-IsString}
use ipc_project.ClientMain.Sessions.{IsRequest, signing, about_group, with_stray}

-- The calls of the client manager send a request.
pub pack_and_send_via_client_net-IsRequest :
    (name other : Text) (tag : ℕ)
    → IsText name
    → IsText other
    → length name < 30
    → length other < 30
    → (has_two_strings tag || has_one_string tag) ≡ true
    → Ensures
        (pack_and_send_via_client_net plenty (some name) (some other) tag)
        (λ r. IsRequest tag name other r.1)
pack_and_send_via_client_net-IsRequest name other tag tn to ln lo kind =
    elim (Bool-cases (has_two_strings tag)) [
      | inl two ↦
          let sent = pack_and_send_via_client_net_lem name other tag tn to ln lo two in
          elim (Bool-cases (tag == register_request || tag == login_request)) [
            | inl e ↦ rw (sent, e) (signing tag name other e)
            | inr e ↦ rw (sent, e) (about_group tag name other (ground arith))
          ]
      | inr no_two ↦
          let one : has_one_string tag ≡ true = ground arith in
          let (stray, same, sent) =
            pack_and_send_via_client_net-short name other tag tn ln lo one in
          rw sent (with_stray tag stray name other one same)
    ]

-- A request with the strings in two arrays, and an answer to it.
abbrev pub IsAsked : Block → Block → ℕ → List Event → List Event → Type 0
IsAsked user_name other tag events events' =
    (name : Text) × (second : Text) × (packets : List Sent) × (string_at user_name 0 ≡ ok name)
    × (string_at other 0 ≡ ok second)
    × IsRequest tag name second packets
    × (events' ≡ asked tag packets ∷ events)

abbrev pub IsAnswered : Block → Block → ℕ → List Event → ℕ × List Event → Type 0
IsAnswered user_name other tag events r =
    (name : Text) × (second : Text) × (packets : List Sent) × (string_at user_name 0 ≡ ok name)
    × (string_at other 0 ≡ ok second)
    × IsRequest tag name second packets
    × (r.1 ≡ answered tag r.0 ∷ asked tag packets ∷ events)

module _ (turn : Turn) (user_name other : Block) (tag : ℕ) (sending : turn.sending ≡ plenty)
    (user_size : length user_name ≡ 30) (other_size : length other ≡ 30)
    (kind : (has_two_strings tag || has_one_string tag) ≡ true) where
  pub ask-IsAsked :
      (events : List Event)
      → Ensures (ask turn user_name other tag events) (IsAsked user_name other tag events)
  unfolding ask
  ask-IsAsked events =
      let R = IsAsked user_name other tag events in
      then_ensures (string_at user_name 0) _ (IsString user_name) R (string_at-IsString user_name)
        λ first is_first.
          then_ensures (string_at other 0) _ (IsString other) R (string_at-IsString other)
            λ second is_second.
              then_ensures
                (pack_and_send_via_client_net turn.sending (some first) (some second) tag) _
                (λ r. IsRequest tag first second r.1) R
                (rw sending (
                  pack_and_send_via_client_net-IsRequest first second tag is_first.1.0 is_second.1.0
                    (omega (arith, is_first.1.1)) (omega (arith, is_second.1.1)) kind))
                λ r request. (first, second, r.1, is_first.0, is_second.0, request, refl)

  pub ask_and_receive-IsAnswered :
      (menu : Menu)
      → Ensures
          (ask_and_receive turn menu.client user_name other tag menu.events)
          (IsAnswered user_name other tag menu.events)
  unfolding ask_and_receive
  ask_and_receive-IsAnswered menu =
      let R = IsAnswered user_name other tag menu.events in
      then_ensures (ask turn user_name other tag menu.events) _
        (IsAsked user_name other tag menu.events) R (ask-IsAsked menu.events)
        λ events asks.
          then_ensures (receive_via_client_net turn.receiving menu.client) _ (λ _. Unit {0}) R
            (always (receive_via_client_net turn.receiving menu.client))
            λ reply _. (
              asks.0,
              asks.1,
              asks.2,
              asks.3,
              asks.4,
              asks.5,
              ap (λ es. answered tag reply ∷ es) asks.6,
            )
