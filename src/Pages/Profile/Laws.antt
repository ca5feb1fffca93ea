-- ===== src/Pages/Profile/Laws.antt =====
-- app/dashboard/profile/page.tsx: what "Save" sends, and where the new name is shown.
use optiflow.Prelude.{
  ◌≡◌, refl, Bool, true, false, not, ◌&&◌, ◌||◌, Option, none, some, [], ◌∷◌, String, truthy,
  is_blank, trim, truthy-trim, arith, if_lem, All,
}
use optiflow.Failure.{ok}
use optiflow.View.{can}
use optiflow.Requests.Accounts.{Me}
use optiflow.Auth.{Jwt, Session, SessionUpdate, update, jwt, session}
use optiflow.Pages.Profile.{
  Queries, State, Effect, update_me, update_session, Action, start_editing, save, cancel, set_name,
  perform, handle_save, after_update, display_name, view, header_view, account_view, storage_view,
  same, acting, step,
}

abbrev pub is_loaded : Queries → Bool
is_loaded q = not (q.me_loading || q.stats_loading)

offered :
    (q : Queries) (s : State)
    → (can (same save) (view q s) ≡ (is_loaded q && (s.editing && not q.update_pending)))
      × (can (same start_editing) (view q s) ≡ (is_loaded q && not s.editing))
unfolding view header_view account_view storage_view
offered q s = ground arith

-- A request of the page, at the data of the moment.
abbrev pub IsSound : Queries → String → Effect → Type 0
IsSound q typed (update_me name) =
    (name ≡ trim typed) × (truthy name ≡ true) × (q.update_pending ≡ false) × (is_loaded q ≡ true)
IsSound q typed _ = Unit

save-IsSound :
    (s : State) (q : Queries)
    → can (same save) (view q s) ≡ true
    → All (IsSound q s.name) (handle_save s)
unfolding handle_save
save-IsSound s q b =
    if_lem (All (IsSound q s.name)) (is_blank s.name) [] (update_me (trim s.name) ∷ []) (λ h. tt)
      (λ h. (
        (
          refl,
          ground (arith, h, truthy-trim s.name),
          ground (arith, b, offered q s),
          ground (arith, b, offered q s),
        ),
        tt,
      ))

perform-IsSound :
    (s : State) (q : Queries) (a : Action)
    → can (same a) (view q s) ≡ true
    → All (IsSound q s.name) (perform q a s).1
unfolding perform
perform-IsSound s q start_editing b = tt
perform-IsSound s q save b = save-IsSound s q b
perform-IsSound s q cancel b = tt
perform-IsSound s q (set_name t) b = tt

-- In whatever state the page is: what a click or a typed text sends is sound, which for a new name
-- says that the data have come, that no update is under way, and that the name is the text of the
-- field without the blanks at its ends and not empty.
pub step-IsSound :
    (s : State) (q : Queries) (a : Action) → All (IsSound q s.name) (step s (acting q a)).1
unfolding step
step-IsSound s q a =
    if_lem (λ r. All (IsSound q s.name) r.1) (can (same a) (view q s)) (perform q a s) (s, [])
      (perform-IsSound s q a) (λ b. tt)

-- the session update that `updateSession({ name })` is
abbrev pub session_update : Effect → SessionUpdate
session_update (update_session name) = record { access_token = none; name = some name }
session_update _ = record { access_token = none; name = none }

-- After an update that the server has answered, whatever else the token and the session hold: the
-- session goes on with the same user and tokens and has the name of the answer, and the page shows
-- this name, from the session until the user's data have come again, and from the data after that.
pub updated-shown :
    (me : Me) (q : Queries) (t : Jwt) (s : Session) (email : Option String)
    → All
        (λ e.
          let s' = session (jwt none (update (session_update e)) t) s in
          (s'.user_id ≡ (session t s).user_id)
          × (s'.access_token ≡ (session t s).access_token)
          × (s'.refresh_token ≡ (session t s).refresh_token)
          × (display_name (record q {
            me = none;
            user = some (record { name = s'.user_name; email = email });
          })
              ≡ me.name)
          × (display_name (record q { me = some me }) ≡ me.name))
        (after_update (ok me))
unfolding after_update jwt session display_name
updated-shown me q t s email = ((refl, refl, refl, refl, refl), tt)
