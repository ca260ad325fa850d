-- ===== src/Auth/Modes.antt =====
-- sysop_auth.c: what the calls do to the mode.
use esp_tnc.Prelude.{ℕ, ◌≡◌, ◌≢◌, true, false, not, ◌&&◌, some, List, Bytes, arith, ◌⊎◌}
use esp_tnc.Esp.{is_ok}
use esp_tnc.Auth.{
  idle, awaiting_response, locked_out, State, success, Issued, is_awaiting_response,
  is_authenticated, clear_challenge, is_locked_out, note_activity, expire_authenticated_if_idle,
  start_challenge, issue_challenge, judge, submit_response, reset_session,
}
use esp_tnc.Auth.Session.{IsValid}

module _ (now : ℕ) (s : State) where
  -- Asking for a lockout changes neither whether the session is authenticated nor whether it waits.
  pub is_locked_out-modes :
      (is_authenticated (is_locked_out now s).1 ≡ is_authenticated s)
      × (is_awaiting_response (is_locked_out now s).1 ≡ is_awaiting_response s)
  unfolding is_locked_out
  is_locked_out-modes = (ground arith, ground arith)

  pub mode-is_locked_out :
      (is_locked_out now s).0 ≡ false → (is_locked_out now s).1.mode ≢ locked_out
  unfolding is_locked_out
  mode-is_locked_out h e = ground arith

  pub note_activity-modes : (note_activity now s).mode ≡ s.mode
  unfolding note_activity
  note_activity-modes = ground arith

  -- A session that expires is no longer authenticated, and did not wait; any other stays as it is.
  pub expire-modes :
      (is_authenticated (expire_authenticated_if_idle now s).1
        ≡ not (expire_authenticated_if_idle now s).0 && is_authenticated s)
      × (is_awaiting_response (expire_authenticated_if_idle now s).1 ≡ is_awaiting_response s)
  unfolding expire_authenticated_if_idle
  expire-modes = (ground arith, ground arith)

-- A challenge was issued, and the session waits; or the state is as it was.
pub issue_challenge-modes :
    (draws : List ℕ) (now len : ℕ) (s : State) (o : Issued)
    → issue_challenge draws now len s ≡ some o
    → ((is_ok o.0 ≡ true) × (o.3.mode ≡ awaiting_response)) ⊎ ((is_ok o.0 ≡ false) × (o.3 ≡ s))
unfolding issue_challenge start_challenge
issue_challenge-modes draws now len s o h = ground arith

pub mode-reset_session : (s : State) → (reset_session s).mode ≡ idle
unfolding reset_session clear_challenge
mode-reset_session s = ground arith

-- The response to a challenge ends the wait, and makes the session authenticated if it succeeds.
pub submit_response-modes :
    (response : Bytes) (now : ℕ) (s : State)
    → IsValid s
    → is_awaiting_response s ≡ true
    → (is_awaiting_response (submit_response response now s).1 ≡ false)
      × (((submit_response response now s).0 ≡ success)
          ⊎ (is_authenticated (submit_response response now s).1 ≡ false))
unfolding submit_response clear_challenge judge
submit_response-modes response now s v h = ground arith

pub submit_response-authenticated :
    (response : Bytes) (now : ℕ) (s : State)
    → (submit_response response now s).0 ≡ success
    → is_authenticated (submit_response response now s).1 ≡ true
unfolding submit_response clear_challenge judge
submit_response-authenticated response now s h = ground arith
