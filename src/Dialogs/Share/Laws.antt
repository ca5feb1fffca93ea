-- ===== src/Dialogs/Share/Laws.antt =====
-- components/files/share-dialog.tsx: what a click on "Create link" sends.
use optiflow.Prelude.{
  ℕ, suc, ◌≡◌, refl, ◌⊎◌, inl, inr, Bool-cases, if_lem, true, false, not, ◌&&◌, Option, none, some,
  List, [], ◌∷◌, String, arith, str_eq, truthy, is_truthy, is_blank, trim, truthy-trim,
  if◌then◌else◌, All,
}
use optiflow.Failure.{Answer, ok, threw}
use optiflow.Requests.Shares.{Share}
use optiflow.View.{can}
use optiflow.Dialogs.Share.{
  expiry_options, Queries, State, initial, Effect, create, Action, set_expires_in, set_password,
  set_max_downloads, click_create, close, copy, click_revoke, payload, perform, after_create,
  handle_create, handle_copy, handle_revoke, view,
}
use optiflow.Dialogs.Share.Offers.{same, is_option, offered_options, offered_create}

-- What happens next in the dialog: an action of the user, at the data of the moment, or the answer
-- of createShare.
pub data Event : Type 0 where
  acting : Queries → Action → Event
  created : Answer Share → Event

module _ {N : Type 0} (number : String → N) (origin : Option String)
    (distance : String → String) where
  -- An action of the user takes place if the dialog offers it.
  unfoldable pub step : State → Event → State × List (Effect N)
  unfolding perform
  step s (acting q a) =
      if can (same a) (view origin distance q s) then perform number origin q a s else (s, [])
  step s (created answer) = after_create answer s

  unfoldable pub run : State → List Event → State
  run s [] = s
  run s (e ∷ es) = run (step s e).0 es

  IsOption : State → Type 0
  IsOption s = is_option s.expires_in ≡ true

  step-IsOption : (s : State) (e : Event) → IsOption s → IsOption (step s e).0
  unfolding step perform after_create IsOption
  step-IsOption s (acting q (set_expires_in t)) h =
      ground (arith, h, offered_options origin distance t q s)
  step-IsOption s (acting q (set_password t)) h = ground (arith, h)
  step-IsOption s (acting q (set_max_downloads t)) h = ground (arith, h)
  step-IsOption s (acting q click_create) h = ground (arith, h)
  step-IsOption s (acting q close) h = ground (arith, h)
  step-IsOption s (acting q (copy token)) h = ground (arith, h)
  step-IsOption s (acting q (click_revoke id)) h = ground (arith, h)
  step-IsOption s (created (ok share)) h = h
  step-IsOption s (created (threw err)) h = h

  begun : IsOption initial
  unfolding expiry_options IsOption
  begun = refl

  run-IsOption : (s : State) (es : List Event) → IsOption s → IsOption (run s es)
  unfolding run
  run-IsOption s [] h = h
  run-IsOption s (e ∷ es) h = run-IsOption (step s e).0 es (step-IsOption s e h)

  -- Whether a creation is what the dialog says, at the data and in the state of the moment.
  abbrev pub IsSound : Queries → State → Effect N → Type 0
  IsSound q s (create file_id p) =
      (q.file_id ≡ some file_id)
      × (truthy file_id ≡ true)
      × (q.create_pending ≡ false)
      × (is_option s.expires_in ≡ true)
      × (((str_eq s.expires_in "never" ≡ true) × (p.expires_in_hours ≡ none))
          ⊎ ((str_eq s.expires_in "never" ≡ false)
              × (p.expires_in_hours ≡ some (number s.expires_in))))
      × (((is_blank s.password ≡ true) × (p.password ≡ none))
          ⊎ ((is_blank s.password ≡ false) × (p.password ≡ some (trim s.password))))
      × (((is_blank s.max_downloads ≡ true) × (p.max_downloads ≡ none))
          ⊎ ((is_blank s.max_downloads ≡ false)
              × (p.max_downloads ≡ some (number s.max_downloads))))
  IsSound q s _ = Unit

  -- How many links an action asks for.
  abbrev pub creations : List (Effect N) → ℕ
  creations [] = 0
  creations (create file_id p ∷ es) = suc (creations es)
  creations (_ ∷ es) = creations es

  clicked-creations :
      (s : State) (q : Queries) (m : Option String)
      → q.file_id ≡ m
      → creations (step s (acting q click_create)).1
        ≡ (if q.shown && (not q.create_pending && is_truthy m) then 1 else 0)
  unfolding step perform handle_create
  clicked-creations s q none h = ground (arith, h, offered_create origin distance q s)
  clicked-creations s q (some id) h = ground (arith, h, offered_create origin distance q s)

  module _ (s : State) where
    payload-expires_in_hours :
        ((str_eq s.expires_in "never" ≡ true) × ((payload number s).expires_in_hours ≡ none))
        ⊎ ((str_eq s.expires_in "never" ≡ false)
            × ((payload number s).expires_in_hours ≡ some (number s.expires_in)))
    unfolding payload
    payload-expires_in_hours = elim (Bool-cases (str_eq s.expires_in "never")) [
      | inl q ↦ inl (q, ground (arith, q))
      | inr q ↦ inr (q, ground (arith, q))
    ]

    payload-password :
        ((is_blank s.password ≡ true) × ((payload number s).password ≡ none))
        ⊎ ((is_blank s.password ≡ false) × ((payload number s).password ≡ some (trim s.password)))
    unfolding payload
    payload-password = elim (Bool-cases (is_blank s.password)) [
      | inl q ↦ inl (q, ground (arith, q, truthy-trim s.password))
      | inr q ↦ inr (q, ground (arith, q, truthy-trim s.password))
    ]

    payload-max_downloads :
        ((is_blank s.max_downloads ≡ true) × ((payload number s).max_downloads ≡ none))
        ⊎ ((is_blank s.max_downloads ≡ false)
            × ((payload number s).max_downloads ≡ some (number s.max_downloads)))
    unfolding payload
    payload-max_downloads = elim (Bool-cases (is_blank s.max_downloads)) [
      | inl q ↦ inl (q, ground (arith, q, truthy-trim s.max_downloads))
      | inr q ↦ inr (q, ground (arith, q, truthy-trim s.max_downloads))
    ]

    create-IsSound :
        (q : Queries) (m : Option String)
        → IsOption s
        → q.file_id ≡ m
        → (not q.create_pending && is_truthy m) ≡ true
        → All (IsSound q s) (handle_create number m s)
    unfolding handle_create IsOption
    create-IsSound q none h e b = tt
    create-IsSound q (some id) h e b =
        if_lem (All (IsSound q s)) (truthy id) (create id (payload number s) ∷ []) []
          (λ t. (
            (
              e,
              t,
              ground (arith, b),
              h,
              payload-expires_in_hours,
              payload-password,
              payload-max_downloads,
            ),
            tt,
          ))
          (λ t. tt)

  perform-IsSound :
      (s : State) (q : Queries) (a : Action)
      → IsOption s
      → can (same a) (view origin distance q s) ≡ true
      → All (IsSound q s) (perform number origin q a s).1
  unfolding perform handle_copy handle_revoke
  perform-IsSound s q (set_expires_in t) h b = tt
  perform-IsSound s q (set_password t) h b = tt
  perform-IsSound s q (set_max_downloads t) h b = tt
  perform-IsSound s q click_create h b =
      create-IsSound s q q.file_id h refl (ground (arith, b, offered_create origin distance q s))
  perform-IsSound s q close h b = (tt, tt)
  perform-IsSound s q (copy token) h b = (tt, (tt, tt))
  perform-IsSound s q (click_revoke id) h b = (tt, tt)

  -- However a user types, chooses and clicks and createShare answers: a link that the dialog then
  -- asks for is for the file that it shows, with no other creation under way; one of the options is
  -- chosen, and the link has no expiry if that is "Never" and the hours of the option otherwise; it
  -- has no password if that field is blank at the click, and otherwise the field's text without
  -- the blanks at its ends; and no limit if that field is blank, and otherwise the field's number.
  -- A click on the button asks for exactly one link if the dialog is open with a file and no
  -- creation is under way, and for none otherwise.
  pub run-creates-IsSound :
      (es : List Event) (q : Queries) (a : Action)
      → All (IsSound q (run initial es)) (step (run initial es) (acting q a)).1
        × (creations (step (run initial es) (acting q click_create)).1
            ≡ (if q.shown && (not q.create_pending && is_truthy q.file_id) then 1 else 0))
  unfolding step
  run-creates-IsSound es q a =
      let s = run initial es in
      (
        if_lem (λ r. All (IsSound q s) r.1) (can (same a) (view origin distance q s))
            (perform number origin q a s) (s, [])
            (perform-IsSound s q a (run-IsOption initial es begun)) (λ b. tt),
        clicked-creations s q q.file_id refl,
      )
