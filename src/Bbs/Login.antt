-- ===== src/Bbs/Login.antt =====
-- main/bbs.c: the invariant of the session is kept by the response to a challenge.
use esp_tnc.Prelude.{
  ◌<◌, ◌≡◌, refl, ◌∙◌, sym, ap, Bool, true, false, ◌&&◌, Bytes, codes, length, arith, inl, inr,
  Bool-cases, ◌⊎◌,
}
use esp_tnc.Auth.{
  Mode, awaiting_response, authenticated, locked_out, State, Verdict, success, failed, lockout,
  expired, no_active, Issued, is_awaiting_response, is_authenticated, issue_challenge,
  submit_response, expire_authenticated_if_idle, take_deferred_config, take_deferred_console,
  set_deferred_config, set_deferred_console,
}
use esp_tnc.Auth.Session.{expire-IsValid, issue_challenge-IsValid}
use esp_tnc.Auth.Modes.{submit_response-modes, submit_response-authenticated}
use esp_tnc.Auth.Steps.{submit_response-IsValid, IsValid-deferred}
use esp_tnc.Bbs.Outside.{Platform}
use esp_tnc.Bbs.Callsign.{equals_ignore_case_ascii}
use esp_tnc.Bbs.State.{InputMode, command, config, terminal, Bbs, send_text}
use esp_tnc.Bbs.Sysop.{
  sysop_send_lockout_message, enter_terminal_mode, on_auth_success, on_verdict, renew_challenge,
  take_response, handle_sysop_response,
}
use esp_tnc.Bbs.Valid.{
  is_response, Holds, IsValid, not_authenticated, not_locked, sysop_issue_challenge-IsValid,
}

-- The sysop may be in any mode that takes no response.
pub as_sysop :
    (m : InputMode) (auth : State) (line text : Bytes)
    → is_response m ≡ false
    → is_authenticated auth ≡ true
    → esp_tnc.Auth.Session.IsValid auth
    → length line < 256
    → length text < 4096
    → Holds true m auth line text
as_sysop m auth line text m_other login valid line_fits body_fits = record {
  is_login = sym login;
  privileged = λ p. refl;
  waiting = ground arith;
  auth_valid = valid;
  line_fits = line_fits;
  body_fits = body_fits;
}

-- Anyone else is in a mode that asks for nothing special.
as_user :
    (auth : State) (line text : Bytes)
    → is_awaiting_response auth ≡ false
    → is_authenticated auth ≡ false
    → esp_tnc.Auth.Session.IsValid auth
    → length line < 256
    → length text < 4096
    → Holds false command auth line text
as_user auth line text quiet login valid line_fits body_fits = record {
  is_login = sym login;
  privileged = λ p. cc;
  waiting = sym quiet;
  auth_valid = valid;
  line_fits = line_fits;
  body_fits = body_fits;
}

module _ {C : Type 0} (pf : Platform C) where
  -- In command mode, after the verdict on a response.
  record IsJudged (b : Bbs C) : Type 0 where
    at : b.input_mode ≡ command
    quiet : is_awaiting_response b.sysop_auth ≡ false
    valid : esp_tnc.Auth.Session.IsValid b.sysop_auth
    line_fits : length b.line_buf < 256
    body_fits : length b.pending_body < 4096

  on_auth_success-IsValid :
      (enter_config enter_terminal : Bool) (b : Bbs C)
      → IsJudged b
      → is_authenticated b.sysop_auth ≡ true
      → IsValid (on_auth_success pf enter_config enter_terminal b)
  unfolding on_auth_success enter_terminal_mode
  on_auth_success-IsValid enter_config enter_terminal b j login =
      let any : (m : InputMode)
          → is_response m ≡ false
          → Holds true m b.sysop_auth b.line_buf b.pending_body =
        λ m no.
          as_sysop m b.sysop_auth b.line_buf b.pending_body no login j.valid j.line_fits
            j.body_fits in
      let b' : Bbs C =
        send_text pf (codes "*** SYSOP authenticated\r") (record b { is_sysop = true }) in
      elim (Bool-cases (enter_config && pf.cfg_is_initialized b'.outside)) [
        | inl to_config ↦ rw (to_config, on_auth_success) (any config refl)
        | inr no_config ↦
            elim (Bool-cases (enter_terminal && (b.uart_is_terminal_mode && b.has_uart_phy))) [
              | inl to_terminal ↦
                  rw (no_config, on_auth_success)
                    (rw (to_terminal, on_auth_success) (any terminal refl))
              | inr no_terminal ↦
                  rw (no_config, on_auth_success)
                    (rw (no_terminal, on_auth_success) (any b.input_mode (ap is_response j.at)))
            ]
      ]

  on_verdict-IsValid :
      (enter_config enter_terminal : Bool) (verdict : Verdict) (b : Bbs C)
      → IsJudged b
      → b.is_sysop ≡ false
      → (verdict ≡ success → is_authenticated b.sysop_auth ≡ true)
      → ((verdict ≡ success) ⊎ (is_authenticated b.sysop_auth ≡ false))
      → IsValid (on_verdict pf enter_config enter_terminal verdict b)
  unfolding on_verdict sysop_send_lockout_message
  on_verdict-IsValid ec et success b j user login out =
      on_auth_success-IsValid ec et b j (login refl)
  on_verdict-IsValid ec et lockout b j user login (inl wrong) = absurd cc
  on_verdict-IsValid ec et lockout b j user login (inr out) =
      rw j.at
        (as_user b.sysop_auth b.line_buf b.pending_body j.quiet out j.valid j.line_fits j.body_fits)
  on_verdict-IsValid ec et expired b j user login (inl wrong) = absurd cc
  on_verdict-IsValid ec et expired b j user login (inr out) =
      rw j.at
        (as_user b.sysop_auth b.line_buf b.pending_body j.quiet out j.valid j.line_fits j.body_fits)
  on_verdict-IsValid ec et no_active b j user login (inl wrong) = absurd cc
  on_verdict-IsValid ec et no_active b j user login (inr out) =
      rw j.at
        (as_user b.sysop_auth b.line_buf b.pending_body j.quiet out j.valid j.line_fits j.body_fits)
  on_verdict-IsValid ec et failed b j user login (inl wrong) = absurd cc
  on_verdict-IsValid ec et failed b j user login (inr out) =
      rw (j.at, user)
        (as_user b.sysop_auth b.line_buf b.pending_body j.quiet out j.valid j.line_fits j.body_fits)

  take_response-IsValid :
      (line : Bytes) (b : Bbs C)
      → IsValid b
      → is_response b.input_mode ≡ true
      → IsValid (take_response pf line b)
  unfolding take_response take_deferred_config take_deferred_console
  take_response-IsValid line b v answering =
      let now = pf.now_ms b.outside in
      let auth : State = record b.sysop_auth {
        deferred_config_entry = false;
        deferred_console_entry = false;
      } in
      let valid = IsValid-deferred b.sysop_auth false false v.auth_valid in
      let awaits : is_awaiting_response auth ≡ true = sym v.waiting ∙ answering in
      let (quiet, out) = submit_response-modes line now auth valid awaits in
      let user : b.is_sysop ≡ false = v.is_login ∙ not_authenticated b.sysop_auth awaits in
      on_verdict-IsValid b.sysop_auth.deferred_config_entry b.sysop_auth.deferred_console_entry
        (submit_response line now auth).0
        (record b { sysop_auth = (submit_response line now auth).1; input_mode = command })
        (record {
          at = refl;
          quiet = quiet;
          valid = submit_response-IsValid line now auth valid;
          line_fits = v.line_fits;
          body_fits = v.body_fits;
        })
        user (submit_response-authenticated line now auth) out

  renew_challenge-IsValid : (b : Bbs C) → IsValid b → IsValid (renew_challenge pf b)
  unfolding renew_challenge
  renew_challenge-IsValid b v = elim (Bool-cases (is_awaiting_response b.sysop_auth)) [
    | inl awaits ↦
        rw (awaits, renew_challenge)
          (sysop_issue_challenge-IsValid pf b v (v.is_login ∙ not_authenticated b.sysop_auth awaits)
            (not_locked b.sysop_auth awaits))
    | inr quiet ↦ rw (quiet, renew_challenge) v
  ]

  pub handle_sysop_response-IsValid :
      (line : Bytes) (b : Bbs C)
      → IsValid b
      → is_response b.input_mode ≡ true
      → IsValid (handle_sysop_response pf line b)
  unfolding handle_sysop_response
  handle_sysop_response-IsValid line b v answering =
      elim (Bool-cases (equals_ignore_case_ascii line (codes "SYSOP NEW"))) [
        | inl renew ↦ rw (renew, handle_sysop_response) (renew_challenge-IsValid b v)
        | inr answer ↦ rw (answer, handle_sysop_response) (take_response-IsValid line b v answering)
      ]
