-- ===== src/Pages/PublicShare/Laws.antt =====
-- app/share/[token]/page.tsx: one download at a time.
use optiflow.Prelude.{
  ◌≤◌, ◌≡◌, Bool, not, ◌&&◌, Option, none, some, List, [], ◌∷◌, String, arith, is_some, ltb,
}
use optiflow.Failure.{Failure, ok, threw}
use optiflow.Requests.Shares.{PublicShare}
use optiflow.View.{can}
use optiflow.Pages.PublicShare.{
  Queries, State, initial, set_password, click_download, perform, handle_download, after_download,
  share_view, loaded_view, not_found_view, view, same, Event, acting, answered, step, run,
}

abbrev pub is_loaded : Queries → Bool
is_loaded q = not q.is_loading && (not (is_some q.error) && is_some q.share)

loaded_download :
    (s : State) (e : Option Failure) (m : Option PublicShare)
    → can (same click_download) (loaded_view s e m)
      ≡ (not (is_some e) && (is_some m && not s.downloading))
unfolding loaded_view not_found_view share_view
loaded_download s none none = ground arith
loaded_download s none (some share) = ground arith
loaded_download s (some e) m = ground arith

offered_download :
    (q : Queries) (s : State)
    → can (same click_download) (view q s) ≡ (is_loaded q && not s.downloading)
unfolding view
offered_download q s = ground (arith, loaded_download s q.error q.share)

-- A call in flight shows, and it is the only one.
record Inv (s : State) : Type 0 where
  at_most_one : s.in_flight ≤ 1
  shown : s.downloading ≡ ltb 0 s.in_flight

step-Inv : (token : String) (s : State) (e : Event) → Inv s → Inv (step token s e).0
unfolding step perform handle_download after_download
step-Inv token s (acting q (set_password t)) h = ground (arith, h)
step-Inv token s (acting q click_download) h = ground (arith, h, offered_download q s)
step-Inv token s (answered (ok url)) h = ground (arith, h)
step-Inv token s (answered (threw err)) h = ground (arith, h)

run-Inv : (token : String) (s : State) (es : List Event) → Inv s → Inv (run token s es)
unfolding run
run-Inv token s [] h = h
run-Inv token s (e ∷ es) h = run-Inv token (step token s e).0 es (step-Inv token s e h)

-- However a visitor types and clicks and the server answers: at most one request for a URL is in
-- flight, the button can be clicked exactly when the link's data have come without an error and no
-- request is in flight.
pub run-downloads_once :
    (token : String) (es : List Event) (q : Queries)
    → ((run token initial es).in_flight ≤ 1)
      × (can (same click_download) (view q (run token initial es))
          ≡ (is_loaded q && not (ltb 0 (run token initial es).in_flight)))
run-downloads_once token es q =
    let s = run token initial es in
    let inv = run-Inv token initial es (ground arith) in
    (inv.at_most_one, ground (arith, inv.shown, offered_download q s))
