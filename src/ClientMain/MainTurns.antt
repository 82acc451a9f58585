-- ===== src/ClientMain/MainTurns.antt =====
-- The first page of clnt_main.c sends registrations and logins, while nobody is logged in.
use ipc_project.Base.{
  ℕ, ◌≡◌, refl, sym, subst, ◌∙◌, Bool, true, false, ◌||◌, ◌==◌, List, ◌∷◌, ok, pos, minus_one,
  if◌then◌else◌, arith, length,
}
use ipc_project.CLib.{strcpy, string_at}
use ipc_project.Protocol.Layout.{register_request, login_request}
use ipc_project.ClientManager.{Sent}
use ipc_project.ClientManager.Receiving.{client_disconnected}
use ipc_project.ClientMain.{
  Turn, Menu, left, asked, answered, main_page, login_page, finished, ask_and_receive, sign,
  main_turn, check_reply, is_one,
}
use ipc_project.ClientMain.Action
use ipc_project.ClientMain.Results.{Ensures, then_ensures, if_ensures, IsCopy, strcpy-IsCopy}
use ipc_project.ClientMain.Sessions.{
  IsRequest, History, registers, is_refused, enters, exits, idles, is_idle, nobody, user, gone,
  IsShown, IsOrderly,
}
use ipc_project.ClientMain.Pages.{IsAnswered, ask_and_receive-IsAnswered}
use ipc_project.ClientMain.LoginTurns.{IsReady, as_typed}

module _ (past : List Turn) (turn : Turn) (menu : Menu) (v : IsOrderly past menu)
    (ready : IsReady turn) (at : menu.page ≡ main_page) where
  no_user : History past nobody menu.events
  no_user =
      let out : v.standing ≡ nobody = subst (λ p. IsShown p menu.user_name v.standing) at v.shown in
      subst (λ u. History past u menu.events) out v.history

  -- What signing up or in leaves: an answer to a request with the words that were typed.
  abbrev IsSigned : ℕ → ℕ × Menu → Type 0
  IsSigned tag r =
      (r.1.page ≡ main_page)
      × (length r.1.user_name ≡ 30)
      × (length r.1.pass ≡ 30)
      × (string_at r.1.user_name 0 ≡ ok turn.first)
      × (packets : List Sent) × IsRequest tag turn.first turn.second packets
      × (r.1.events ≡ answered tag r.0 ∷ asked tag packets ∷ menu.events)

  sign-IsSigned :
      (tag : ℕ)
      → (tag == register_request || tag == login_request) ≡ true
      → Ensures (sign turn tag menu) (IsSigned tag)
  unfolding sign
  sign-IsSigned tag signing =
      then_ensures (strcpy menu.user_name 0 turn.first) _ (IsCopy turn.first menu.user_name)
        (IsSigned tag) (strcpy-IsCopy menu.user_name turn.first ready.0)
        λ user_name copy.
          then_ensures (strcpy menu.pass 0 turn.second) _ (IsCopy turn.second menu.pass)
            (IsSigned tag) (strcpy-IsCopy menu.pass turn.second ready.1)
            λ pass copy'.
              let size = copy.0 ∙ v.name_size in
              let size' = copy'.0 ∙ v.pass_size in
              then_ensures (ask_and_receive turn menu.client user_name pass tag menu.events) _
                (IsAnswered user_name pass tag menu.events) (IsSigned tag)
                (ask_and_receive-IsAnswered turn user_name pass tag ready.2 size size'
                  (ground arith) menu)
                λ r (name, second, packets, e', es, request, e). (
                  at,
                  size,
                  size',
                  copy.1,
                  packets,
                  subst (λ s. IsRequest tag turn.first s packets)
                      (as_typed pass turn.second second copy'.1 es)
                      (subst (λ n. IsRequest tag n second packets)
                        (as_typed user_name turn.first name copy.1 e') request),
                  e,
                )

  -- Nobody is logged in after a registration and after a login that is refused.
  signed_out :
      (tag : ℕ) (r : ℕ × Menu)
      → IsSigned tag r
      → ((packets : List Sent)
          → IsRequest tag turn.first turn.second packets
          → History (turn ∷ past) nobody (answered tag r.0 ∷ asked tag packets ∷ menu.events))
      → IsOrderly (turn ∷ past) r.1
  signed_out tag r (at', size, size', copy, packets, request, e) step = record {
    standing = nobody;
    history = subst (History (turn ∷ past) nobody) (sym e) (step packets request);
    shown = subst (λ p. IsShown p r.1.user_name nobody) (sym at') refl;
    name_size = size;
    pass_size = size';
    grp_size = λ here. absurd (ground (arith, at'));
  }

  module _ (chosen : (turn.action == Action.login) ≡ true) where
    signed_by :
        (r : ℕ × Menu)
        → IsSigned login_request r
        → (accepted : Bool) → (r.0 == 1) ≡ accepted
        → IsOrderly (turn ∷ past) (
            if is_one (if accepted then pos 1 else minus_one)
            then record (r.1) { page = login_page; grp_name = turn.grp_name }
            else r.1)
    signed_by r (at', size, size', copy, packets, request, e) true accepted = record {
      standing = user turn.first;
      history =
          subst (History (turn ∷ past) (user turn.first)) (sym e)
            (enters turn r.0 packets no_user chosen accepted request);
      shown = (turn.first, refl, copy);
      name_size = size;
      pass_size = size';
      grp_size = λ here. ready.3;
    }
    signed_by r signed false refused =
        signed_out login_request r signed
          λ packets request. is_refused turn r.0 packets no_user chosen refused request

    signed_in :
        (r : ℕ × Menu)
        → IsSigned login_request r
        → IsOrderly (turn ∷ past) (
            if is_one (if r.0 == 1 then pos 1 else minus_one)
            then record (r.1) { page = login_page; grp_name = turn.grp_name }
            else r.1)
    signed_in r signed = signed_by r signed (r.0 == 1) refl

  exit-IsOrderly :
      (turn.action == Action.exit) ≡ true
      → IsOrderly (turn ∷ past) (record menu {
        page = finished;
        events = left (client_disconnected menu.client) ∷ menu.events;
      })
  exit-IsOrderly chosen = record {
    standing = gone;
    history = exits turn (client_disconnected menu.client) no_user chosen;
    shown = refl;
    name_size = v.name_size;
    pass_size = v.pass_size;
    grp_size = λ here. absurd (ground arith);
  }

  -- A menu that stays as it is.
  idle-IsOrderly : is_idle nobody turn.action ≡ true → IsOrderly (turn ∷ past) menu
  idle-IsOrderly idle = record {
    standing = nobody;
    history = idles turn nobody no_user idle;
    shown = subst (λ p. IsShown p menu.user_name nobody) (sym at) refl;
    name_size = v.name_size;
    pass_size = v.pass_size;
    grp_size = v.grp_size;
  }

  pub main_turn-IsOrderly : Ensures (main_turn turn menu) (IsOrderly (turn ∷ past))
  unfolding main_turn check_reply
  main_turn-IsOrderly =
      let R = IsOrderly (turn ∷ past) in
      if_ensures (turn.action == Action.register) _ _ R
        (λ c.
          then_ensures (sign turn register_request menu) _ (IsSigned register_request) R
            (sign-IsSigned register_request refl)
            λ r signed.
              signed_out register_request r signed
                λ packets request. registers turn r.0 packets no_user c request)
        λ c0.
          if_ensures (turn.action == Action.login) _ _ R
            (λ c.
              then_ensures (sign turn login_request menu) _ (IsSigned login_request) R
                (sign-IsSigned login_request refl) λ r signed. signed_in c r signed)
            λ c1.
              if_ensures (turn.action == Action.exit) _ _ R exit-IsOrderly
                λ c2. idle-IsOrderly (rw (c0, c1, c2) refl)
