-- ===== src/ClientMain/LoginTurns.antt =====
-- The page for groups of clnt_main.c sends what its user may send.
use ipc_project.Base.{
  ℕ, ◌≡◌, refl, sym, subst, ◌∙◌, true, ◌||◌, ◌==◌, List, ◌∷◌, ok, ◌>>=◌, arith, length,
}
use ipc_project.CLib.{Block, Text, IsText, strcpy, string_at}
use ipc_project.Protocol.Layout.{
  logout_request, group_create_request, group_join_request, group_leave_request,
  group_all_available_request,
}
use ipc_project.SrvMng.Requests.{has_two_strings}
use ipc_project.ClientManager.{Sent}
use ipc_project.ClientManager.Single.{has_one_string}
use ipc_project.ClientManager.Sending.{plenty}
use ipc_project.ClientMain.{
  Turn, Menu, Event, asked, answered, main_page, login_page, ask, ask_and_receive, name_and_ask,
  login_turn,
}
use ipc_project.ClientMain.Action
use ipc_project.ClientMain.Results.{Ensures, then_ensures, if_ensures, IsCopy, strcpy-IsCopy}
use ipc_project.ClientMain.Sessions.{
  IsRequest, History, makes, joins, lists, leaves, logs_out, idles, nobody, user, IsShown,
  IsOrderly,
}
use ipc_project.ClientMain.Pages.{IsAsked, IsAnswered, ask-IsAsked, ask_and_receive-IsAnswered}

-- The words that are typed hold no NUL, the allocations of the client manager succeed, and the array
-- for a group's name has 30 characters.
abbrev pub IsReady : Turn → Type 0
IsReady turn =
    IsText turn.first × IsText turn.second × (turn.sending ≡ plenty) × (length turn.grp_name ≡ 30)

pub as_typed :
    (blk : Block) (t t' : Text) → string_at blk 0 ≡ ok t → string_at blk 0 ≡ ok t' → t' ≡ t
as_typed blk t t' e e' = cc

module _ (past : List Turn) (turn : Turn) (menu : Menu) (v : IsOrderly past menu)
    (ready : IsReady turn) (at : menu.page ≡ login_page) where
  user_inside :
      (name : Text) × History past (user name) menu.events × (string_at menu.user_name 0 ≡ ok name)
  user_inside =
      let shown : IsShown login_page menu.user_name v.standing =
        subst (λ p. IsShown p menu.user_name v.standing) at v.shown in
      (shown.0, subst (λ u. History past u menu.events) shown.1 v.history, shown.2)

  -- A menu for the same user after this turn.
  still_inside :
      (grp_name : Block) (events : List Event)
      → length grp_name ≡ 30
      → ((name : Text)
          → History past (user name) menu.events
          → string_at menu.user_name 0 ≡ ok name
          → History (turn ∷ past) (user name) events)
      → IsOrderly (turn ∷ past) (record menu { grp_name = grp_name; events = events })
  still_inside grp_name events size step =
      let (name, before, here) = user_inside in
      record {
        standing = user name;
        history = step name before here;
        shown = subst (λ p. IsShown p menu.user_name (user name)) (sym at) (name, refl, here);
        name_size = v.name_size;
        pass_size = v.pass_size;
        grp_size = λ _. size;
      }

  name_and_ask-IsOrderly :
      (tag : ℕ)
      → (has_two_strings tag || has_one_string tag) ≡ true
      → ((reply : ℕ) (name : Text) (packets : List Sent)
          → History past (user name) menu.events
          → IsRequest tag name turn.first packets
          → History
              (turn ∷ past)
              (user name)
              (answered tag reply ∷ asked tag packets ∷ menu.events))
      → Ensures (name_and_ask turn tag menu) (IsOrderly (turn ∷ past))
  unfolding name_and_ask
  name_and_ask-IsOrderly tag kind step =
      let R = IsOrderly (turn ∷ past) in
      then_ensures (strcpy menu.grp_name 0 turn.first) _ (IsCopy turn.first menu.grp_name) R
        (strcpy-IsCopy menu.grp_name turn.first ready.0)
        λ grp_name copy.
          let size = copy.0 ∙ v.grp_size at in
          then_ensures (ask_and_receive turn menu.client menu.user_name grp_name tag menu.events) _
            (IsAnswered menu.user_name grp_name tag menu.events) R
            (ask_and_receive-IsAnswered turn menu.user_name grp_name tag ready.2 v.name_size size
              kind menu)
            λ r (name', group, packets, e', eg, request, e).
              still_inside grp_name r.1 size λ name before here. rw e (
                step r.0 name packets before (
                  subst (λ g. IsRequest tag name g packets)
                    (as_typed grp_name turn.first group copy.1 eg)
                    (subst (λ n. IsRequest tag n group packets)
                      (as_typed menu.user_name name name' here e') request)))

  see_groups-IsOrderly :
      (turn.action == Action.see_grps) ≡ true
      → Ensures
          (ask_and_receive turn menu.client menu.user_name menu.grp_name group_all_available_request
              menu.events
            >>= λ r. ok (record menu { events = r.1 }))
          (IsOrderly (turn ∷ past))
  see_groups-IsOrderly chosen =
      let tag = group_all_available_request in
      let size = v.grp_size at in
      then_ensures (ask_and_receive turn menu.client menu.user_name menu.grp_name tag menu.events) _
        (IsAnswered menu.user_name menu.grp_name tag menu.events) (IsOrderly (turn ∷ past))
        (ask_and_receive-IsAnswered turn menu.user_name menu.grp_name tag ready.2 v.name_size size
          refl menu)
        λ r (name', group, packets, e', eg, request, e).
          still_inside menu.grp_name r.1 size λ name before here. rw e (
            lists turn r.0 name group packets before chosen (
              subst (λ n. IsRequest tag n group packets)
                (as_typed menu.user_name name name' here e') request))

  leave-IsOrderly :
      (turn.action == Action.leave_grp) ≡ true
      → Ensures
          (strcpy menu.grp_name 0 turn.first >>= λ grp_name.
            ask turn menu.user_name grp_name group_leave_request menu.events >>= λ events.
            ok (record menu { grp_name = grp_name; events = events }))
          (IsOrderly (turn ∷ past))
  leave-IsOrderly chosen =
      let tag = group_leave_request in
      let R = IsOrderly (turn ∷ past) in
      then_ensures (strcpy menu.grp_name 0 turn.first) _ (IsCopy turn.first menu.grp_name) R
        (strcpy-IsCopy menu.grp_name turn.first ready.0)
        λ grp_name copy.
          let size = copy.0 ∙ v.grp_size at in
          then_ensures (ask turn menu.user_name grp_name tag menu.events) _
            (IsAsked menu.user_name grp_name tag menu.events) R
            (ask-IsAsked turn menu.user_name grp_name tag ready.2 v.name_size size refl menu.events)
            λ events (name', group, packets, e', eg, request, e).
              still_inside grp_name events size λ name before here. rw e (
                leaves turn name packets before chosen (
                  subst (λ g. IsRequest tag name g packets)
                    (as_typed grp_name turn.first group copy.1 eg)
                    (subst (λ n. IsRequest tag n group packets)
                      (as_typed menu.user_name name name' here e') request)))

  logout-IsOrderly :
      (turn.action == Action.logout) ≡ true
      → Ensures
          (ask_and_receive turn menu.client menu.user_name menu.grp_name logout_request menu.events
            >>= λ r. ok (record menu { page = main_page; events = r.1 }))
          (IsOrderly (turn ∷ past))
  logout-IsOrderly chosen =
      let tag = logout_request in
      then_ensures (ask_and_receive turn menu.client menu.user_name menu.grp_name tag menu.events) _
        (IsAnswered menu.user_name menu.grp_name tag menu.events) (IsOrderly (turn ∷ past))
        (ask_and_receive-IsAnswered turn menu.user_name menu.grp_name tag ready.2 v.name_size
          (v.grp_size at) refl menu)
        λ r (name', group, packets, e', eg, request, e).
          let (name, before, here) = user_inside in
          record {
            standing = nobody;
            history = rw e (
                logs_out turn r.0 name group packets before chosen (
                  subst (λ n. IsRequest tag n group packets)
                    (as_typed menu.user_name name name' here e') request));
            shown = refl;
            name_size = v.name_size;
            pass_size = v.pass_size;
            grp_size = λ here. absurd (ground arith);
          }

  pub login_turn-IsOrderly : Ensures (login_turn turn menu) (IsOrderly (turn ∷ past))
  unfolding login_turn
  login_turn-IsOrderly =
      let R = IsOrderly (turn ∷ past) in
      if_ensures (turn.action == Action.create_grp) _ _ R
        (λ c.
          name_and_ask-IsOrderly group_create_request refl
            λ reply name packets before request. makes turn reply name packets before c request)
        λ c0. if_ensures (turn.action == Action.see_grps) _ _ R see_groups-IsOrderly λ c1.
          if_ensures (turn.action == Action.join_grp) _ _ R
            (λ c.
              name_and_ask-IsOrderly group_join_request refl
                λ reply name packets before request. joins turn reply name packets before c request)
            λ c2. if_ensures (turn.action == Action.leave_grp) _ _ R leave-IsOrderly λ c3.
              if_ensures (turn.action == Action.logout) _ _ R logout-IsOrderly λ c4.
                still_inside menu.grp_name menu.events (v.grp_size at)
                  λ name before here. idles turn (user name) before (rw (c0, c1, c2, c3, c4) refl)
