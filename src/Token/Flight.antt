-- ===== src/Token/Flight.antt =====
-- lib/api/token.ts: at most one refresh is in flight, and it is the one that callers share.
use optiflow.Prelude.{ℕ, ◌≤◌, ◌≡◌, Bool, true, false, some, List, [], ◌∷◌, arith, is_truthy}
use optiflow.Token.{
  Stage, absent, settled, Store, initial, promise, refresh_access_token, Event, waking, step, run,
}

-- The chain has started and its `finally` handler has not run.
abbrev pub is_live : Stage → Bool
is_live absent = false
is_live (settled _) = false
is_live _ = true

pub record Inv (s : Store) : Type 0 where
  pub shared : (p : ℕ) → is_live (s.chains p) ≡ true → s.refresh_promise ≡ some p
  pub pending : (p : ℕ) → s.refresh_promise ≡ some p → is_live (s.chains p) ≡ true
  pub fresh : (p : ℕ) → s.next_promise ≤ p → s.chains p ≡ absent

pub initial-Inv : Inv initial
initial-Inv = ground arith

-- The promise that an event is about.
abbrev woken : Event → ℕ
woken (waking q sig) = q
woken _ = 0

module _ (s : Store) (e : Event) (h : Inv s) where
  step_shared :
      (p : ℕ) → is_live ((step s e).0.chains p) ≡ true → (step s e).0.refresh_promise ≡ some p
  unfolding step
  step_shared p l =
      ground (arith, h.shared p, h.fresh p, h.pending p, h.shared (woken e), h.pending (woken e))

  step_pending :
      (p : ℕ) → (step s e).0.refresh_promise ≡ some p → is_live ((step s e).0.chains p) ≡ true
  unfolding step
  step_pending p l =
      ground (arith, h.shared p, h.fresh p, h.pending p, h.shared (woken e), h.pending (woken e))

  step_fresh : (p : ℕ) → (step s e).0.next_promise ≤ p → (step s e).0.chains p ≡ absent
  unfolding step
  step_fresh p l = ground (arith, h.fresh p, h.fresh (woken e))

  pub step-Inv : Inv (step s e).0
  step-Inv = record { shared = step_shared; pending = step_pending; fresh = step_fresh }

pub run-Inv : (s : Store) (es : List Event) → Inv s → Inv (run s es)
unfolding run
run-Inv s [] h = h
run-Inv s (e ∷ es) h = run-Inv (step s e).0 es (step-Inv s e h)

-- However calls, token changes and answers interleave from the loading of the module on, two
-- refresh chains that are both in flight are the same one.
pub run-single_flight :
    (es : List Event) (p q : ℕ)
    → is_live ((run initial es).chains p) ≡ true
    → is_live ((run initial es).chains q) ≡ true
    → p ≡ q
run-single_flight es p q lp lq =
    let inv = run-Inv initial es initial-Inv in ground (arith, inv.shared p lp, inv.shared q lq)

-- A chain keeps its promise in `refreshPromise` until it has settled, so while it is in flight
-- each call that finds a refresh token gets that promise, sends nothing and changes nothing.
pub refresh_shared :
    (es : List Event) (p : ℕ)
    → is_live ((run initial es).chains p) ≡ true
    → is_truthy (run initial es).refresh_token ≡ true
    → refresh_access_token (run initial es) ≡ (run initial es, [], promise p)
unfolding refresh_access_token
refresh_shared es p l t = ground (arith, (run-Inv initial es initial-Inv).shared p l)
