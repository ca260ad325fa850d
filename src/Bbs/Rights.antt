-- ===== src/Bbs/Rights.antt =====
-- main/bbs.c: the invariant of the session is kept by every command.
use esp_tnc.Prelude.{
  ℕ, ◌≡◌, refl, ◌∙◌, sym, ap, Bool, true, false, not, ◌&&◌, ◌||◌, [], Bytes, arith, inl, inr,
  Bool-cases, is_empty,
}
use esp_tnc.Auth.{
  State, secret_is_empty, is_locked_out, bypass_authenticate, set_deferred_config,
  set_deferred_console,
}
use esp_tnc.Auth.Session.{is_locked_out-IsValid, bypass-IsValid}
use esp_tnc.Auth.Modes.{is_locked_out-modes, mode-is_locked_out}
use esp_tnc.Auth.Steps.{IsValid-deferred}
use esp_tnc.Bbs.Outside.{Platform}
use esp_tnc.Bbs.Callsign.{base_callsign, is_valid_callsign}
use esp_tnc.Bbs.State.{InputMode, command, subject, config, terminal, Bbs}
use esp_tnc.Bbs.Sysop.{sysop_send_lockout_message, enter_config_mode, enter_terminal_mode}
use esp_tnc.Bbs.Messages.{
  list_messages, cmd_read, read_found, show_message, set_last_read, cmd_kill, kill_found,
}
use esp_tnc.Bbs.Commands.{
  start_post, cmd_send, bypass_if_empty, challenge_first, cmd_config, cmd_terminal,
}
use esp_tnc.Bbs.Valid.{Holds, IsValid, is_response, sysop_issue_challenge-IsValid}
use esp_tnc.Bbs.Login.{as_sysop}

-- The fields that the invariant is about, and the connection's.
abbrev pub Session : Type 0
Session = Bool × InputMode × State × Bytes × Bytes × Bool

abbrev pub session : {C : Type 0} → Bbs C → Session
session b = (b.is_sysop, b.input_mode, b.sysop_auth, b.line_buf, b.pending_body, b.connected)

abbrev pub HoldsIn : Session → Type 0
HoldsIn s = Holds s.0 s.1 s.2 s.3 s.4

pub HoldsIn-same : (s t : Session) → s ≡ t → HoldsIn t → HoldsIn s
HoldsIn-same s t e h = rw e h

pub IsValid-session : {C : Type 0} (b b' : Bbs C) → session b' ≡ session b → IsValid b → IsValid b'
IsValid-session b b' e v = HoldsIn-same (session b') (session b) e v

module _ {C : Type 0} (pf : Platform C) where
  pub list_messages-session :
      (limit : ℕ) (mine_only : Bool) (b : Bbs C)
      → session (list_messages pf limit mine_only b) ≡ session b
  unfolding list_messages
  list_messages-session limit mine_only b = ground arith

  pub cmd_read-session : (id : ℕ) (b : Bbs C) → session (cmd_read pf id b) ≡ session b
  unfolding cmd_read read_found show_message set_last_read
  cmd_read-session id b = ground arith

  pub cmd_kill-session : (id : ℕ) (b : Bbs C) → session (cmd_kill pf id b) ≡ session b
  unfolding cmd_kill kill_found
  cmd_kill-session id b = ground arith

  keeps : (b b' : Bbs C) → IsValid b → session b' ≡ session b → IsValid b'
  keeps b b' v e = IsValid-session b b' e v

  -- A message is begun in command mode.
  pub cmd_send-IsValid :
      (is_sp : Bool) (flags : ℕ) (arg : Bytes) (b : Bbs C)
      → b.input_mode ≡ command
      → IsValid b
      → IsValid (cmd_send pf is_sp flags arg b)
  unfolding cmd_send start_post
  cmd_send-IsValid is_sp flags arg b at v =
      let begun : Holds b.is_sysop subject b.sysop_auth b.line_buf [] = record {
        is_login = v.is_login;
        privileged = λ p. cc;
        waiting = ap is_response (sym at) ∙ v.waiting;
        auth_valid = v.auth_valid;
        line_fits = v.line_fits;
        body_fits = omega arith;
      } in
      elim (Bool-cases (is_empty (base_callsign 7 arg))) [
        | inl none_given ↦ rw (none_given, cmd_send) v
        | inr given ↦ elim (Bool-cases (is_sp && not (is_valid_callsign arg))) [
          | inl bad ↦ rw (given, cmd_send) (rw (bad, cmd_send) v)
          | inr good ↦ rw (given, cmd_send) (rw (good, cmd_send) begun)
        ]
      ]

  -- The session with another of its deferred marks.
  pub deferred :
      (m d : Bool) (b : Bbs C)
      → IsValid b
      → IsValid (record b {
        sysop_auth = record b.sysop_auth { deferred_config_entry = m; deferred_console_entry = d };
      })
  deferred m d b v = record {
    is_login = v.is_login;
    privileged = v.privileged;
    waiting = v.waiting;
    auth_valid = IsValid-deferred b.sysop_auth m d v.auth_valid;
    line_fits = v.line_fits;
    body_fits = v.body_fits;
  }

  pub unlocked :
      (b : Bbs C)
      → IsValid b
      → IsValid (record b { sysop_auth = (is_locked_out (pf.now_ms b.outside) b.sysop_auth).1 })
  unlocked b v =
      let now = pf.now_ms b.outside in
      let (login, waits) = is_locked_out-modes now b.sysop_auth in
      record {
        is_login = v.is_login ∙ sym login;
        privileged = v.privileged;
        waiting = v.waiting ∙ sym waits;
        auth_valid = is_locked_out-IsValid b.sysop_auth v.auth_valid now;
        line_fits = v.line_fits;
        body_fits = v.body_fits;
      }

  challenge_first-IsValid :
      (defer : State → State) (b : Bbs C)
      → ((b' : Bbs C) → IsValid b' → IsValid (record b' { sysop_auth = defer b'.sysop_auth }))
      → ((s : State) → (defer s).mode ≡ s.mode)
      → IsValid b
      → b.is_sysop ≡ false
      → IsValid (challenge_first pf defer b)
  unfolding challenge_first sysop_send_lockout_message
  challenge_first-IsValid defer b keeps_it same_mode v user =
      let now = pf.now_ms b.outside in
      let auth = (is_locked_out now b.sysop_auth).1 in
      let v' = unlocked b v in
      elim (Bool-cases (is_locked_out now b.sysop_auth).0) [
        | inl locked ↦ rw (locked, challenge_first) v'
        | inr free ↦
            rw (free, challenge_first)
              (sysop_issue_challenge-IsValid pf (record b { sysop_auth = defer auth })
                (keeps_it (record b { sysop_auth = auth }) v') user
                (λ e. mode-is_locked_out now b.sysop_auth free (sym (same_mode auth) ∙ e)))
      ]

  pub bypass_if_empty-IsValid :
      (b : Bbs C)
      → b.input_mode ≡ command
      → IsValid b
      → IsValid (bypass_if_empty pf b)
        × ((not (secret_is_empty b.sysop_auth) && not b.is_sysop) ≡ false
            → (bypass_if_empty pf b).is_sysop ≡ true)
  unfolding bypass_if_empty bypass_authenticate
  bypass_if_empty-IsValid b at v = elim (Bool-cases (secret_is_empty b.sysop_auth)) [
    | inl empty ↦
        rw (empty, bypass_if_empty)
          (
            rw at (
                as_sysop command _ b.line_buf b.pending_body refl refl
                  (bypass-IsValid b.sysop_auth v.auth_valid (pf.now_ms b.outside)) v.line_fits
                  v.body_fits),
            λ h. refl,
          )
    | inr full ↦ rw (full, bypass_if_empty) (v, λ h. ground arith)
  ]

  -- The sysop goes to another mode.
  to_mode :
      (m : InputMode) (b : Bbs C)
      → is_response m ≡ false
      → b.is_sysop ≡ true
      → IsValid b
      → Holds b.is_sysop m b.sysop_auth b.line_buf b.pending_body
  to_mode m b plain login v = rw login (
      as_sysop m b.sysop_auth b.line_buf b.pending_body plain (sym v.is_login ∙ login) v.auth_valid
        v.line_fits v.body_fits)

  pub cmd_config-IsValid :
      (b : Bbs C) → b.input_mode ≡ command → IsValid b → IsValid (cmd_config pf b)
  unfolding cmd_config enter_config_mode set_deferred_config
  cmd_config-IsValid b at v = elim (Bool-cases (not (pf.cfg_is_initialized b.outside))) [
    | inl missing ↦ rw (missing, cmd_config) v
    | inr ready ↦ elim (Bool-cases (not (secret_is_empty b.sysop_auth) && not b.is_sysop)) [
      | inl stranger ↦
          rw (ready, cmd_config)
            (rw (stranger, cmd_config)
              (challenge_first-IsValid (set_deferred_config true) b
                (λ b' v'. deferred true b'.sysop_auth.deferred_console_entry b' v') (λ s. refl) v
                (ground arith)))
      | inr known ↦
          (let cleared : Bbs C = record b { sysop_auth = set_deferred_config false b.sysop_auth } in
            let (v', login) =
              bypass_if_empty-IsValid cleared at
                (deferred false b.sysop_auth.deferred_console_entry b v) in
            rw (ready, cmd_config)
              (rw (known, cmd_config)
                (to_mode config (bypass_if_empty pf cleared) refl (login known) v')))
    ]
  ]

  pub cmd_terminal-IsValid :
      (b : Bbs C) → b.input_mode ≡ command → IsValid b → IsValid (cmd_terminal pf b)
  unfolding cmd_terminal enter_terminal_mode set_deferred_console
  cmd_terminal-IsValid b at v =
      elim (Bool-cases (not b.uart_is_terminal_mode || not b.has_uart_phy)) [
        | inl missing ↦ rw (missing, cmd_terminal) v
        | inr ready ↦ elim (Bool-cases (not (secret_is_empty b.sysop_auth) && not b.is_sysop)) [
          | inl stranger ↦
              rw (ready, cmd_terminal)
                (rw (stranger, cmd_terminal)
                  (challenge_first-IsValid (set_deferred_console true) b
                    (λ b' v'. deferred b'.sysop_auth.deferred_config_entry true b' v') (λ s. refl) v
                    (ground arith)))
          | inr known ↦
              (let cleared : Bbs C = record b {
                sysop_auth = set_deferred_console false b.sysop_auth;
              } in
                let (v', login) =
                  bypass_if_empty-IsValid cleared at
                    (deferred b.sysop_auth.deferred_config_entry false b v) in
                rw (ready, cmd_terminal)
                  (rw (known, cmd_terminal)
                    (to_mode terminal (bypass_if_empty pf cleared) refl (login known) v')))
        ]
      ]
