-- ===== src/Bbs/Dispatch.antt =====
-- main/bbs.c: the invariant of the session is kept by every command, and by each line.
use esp_tnc.Prelude.{
  ℕ, ◌≡◌, ◌≢◌, ◌∙◌, sym, ap, true, false, ◌&&◌, ◌||◌, Bytes, codes, if◌then◌else◌, arith, inl, inr,
  Bool-cases, is_empty, ◌==◌,
}
use esp_tnc.Auth.{
  secret_is_empty, is_locked_out, is_authenticated, is_awaiting_response, set_deferred_config,
  locked_out,
}
use esp_tnc.Auth.Session.{note_activity-IsValid}
use esp_tnc.Auth.Modes.{mode-is_locked_out, note_activity-modes}
use esp_tnc.Bbs.Outside.{Platform}
use esp_tnc.Bbs.Callsign.{equals_ignore_case_ascii}
use esp_tnc.Bbs.State.{command, Bbs, send_text, send_prompt}
use esp_tnc.Bbs.Sysop.{sysop_expire_authenticated_if_idle, sysop_send_lockout_message}
use esp_tnc.Bbs.Messages.{list_messages, cmd_read, cmd_kill}
use esp_tnc.Bbs.Commands.{
  Command, help, list, list_last, list_mine, read, send, send_private, send_bulletin, kill,
  heard_list, info, enter_config, enter_terminal, bye, login, unknown, command_of, run_command,
  bypass_if_empty, login_unlocked, login_secret, cmd_sysop, cmd_bye, with_id, check_activity,
  process_command,
}
use esp_tnc.Bbs.Scanning.{scan_command, strtoul, atoi}
use esp_tnc.Bbs.Valid.{
  IsValid, if-IsValid, is_response, sysop_issue_challenge-IsValid, expire_if_idle-IsValid,
}
use esp_tnc.Bbs.Rights.{
  session, IsValid-session, list_messages-session, cmd_read-session, cmd_kill-session,
  cmd_send-IsValid, deferred, unlocked, bypass_if_empty-IsValid, cmd_config-IsValid,
  cmd_terminal-IsValid,
}

module _ {C : Type 0} (pf : Platform C) where
  login_unlocked-IsValid :
      (arg : Bytes) (b : Bbs C)
      → IsValid b
      → b.input_mode ≡ command
      → b.sysop_auth.mode ≢ locked_out
      → IsValid (login_unlocked pf arg b)
  unfolding login_unlocked
  login_unlocked-IsValid arg b v at free =
      let quiet : is_awaiting_response b.sysop_auth ≡ false = sym v.waiting ∙ ap is_response at in
      elim (Bool-cases (b.is_sysop || is_authenticated b.sysop_auth)) [
        | inl known ↦ rw (known, login_unlocked) v
        | inr stranger ↦
            (let no_renewal : (equals_ignore_case_ascii arg (codes "NEW")
                    && is_awaiting_response b.sysop_auth)
                  ≡ false =
                ground arith in
              rw (stranger, login_unlocked)
                (rw (no_renewal, login_unlocked)
                  (rw (quiet, login_unlocked)
                    (sysop_issue_challenge-IsValid pf b v (ground arith) free))))
      ]

  login_secret-IsValid :
      (arg : Bytes) (b : Bbs C)
      → IsValid b
      → b.input_mode ≡ command
      → IsValid (login_secret pf arg b)
  unfolding login_secret sysop_send_lockout_message
  login_secret-IsValid arg b v at =
      let now = pf.now_ms b.outside in
      elim (Bool-cases (is_locked_out now b.sysop_auth).0) [
        | inl locked ↦ rw (locked, login_secret) (unlocked pf b v)
        | inr free ↦
            rw (free, login_secret)
              (login_unlocked-IsValid arg
                (record b { sysop_auth = (is_locked_out now b.sysop_auth).1 }) (unlocked pf b v) at
                (mode-is_locked_out now b.sysop_auth free))
      ]

  cmd_sysop-IsValid :
      (arg : Bytes) (b : Bbs C) → IsValid b → b.input_mode ≡ command → IsValid (cmd_sysop pf arg b)
  unfolding cmd_sysop set_deferred_config
  cmd_sysop-IsValid arg b v at =
      let b' : Bbs C = record b { sysop_auth = set_deferred_config false b.sysop_auth } in
      let v' = deferred pf false b.sysop_auth.deferred_console_entry b v in
      if-IsValid (secret_is_empty b.sysop_auth)
        (send_prompt pf (send_text pf _ (bypass_if_empty pf b'))) (login_secret pf arg b')
        (λ e. (bypass_if_empty-IsValid pf b' at v').0) (λ e. login_secret-IsValid arg b' v' at)

  with_id-IsValid :
      (usage : Bytes) (run : ℕ → Bbs C → Bbs C) (arg : Bytes) (b : Bbs C)
      → ((id : ℕ) → session (run id b) ≡ session b)
      → IsValid b
      → IsValid (with_id pf usage run arg b)
  unfolding with_id
  with_id-IsValid usage run arg b same v = elim (Bool-cases (strtoul arg == 0)) [
    | inl none_given ↦ rw (none_given, with_id) v
    | inr given ↦
        rw (given, with_id) (IsValid-session b (run (strtoul arg) b) (same (strtoul arg)) v)
  ]

  run_command-IsValid :
      (cmd : Command) (arg : Bytes) (b : Bbs C)
      → IsValid b
      → b.input_mode ≡ command
      → IsValid (run_command pf cmd arg b)
  unfolding run_command cmd_bye
  run_command-IsValid help arg b v at = v
  run_command-IsValid list arg b v at =
      IsValid-session b (list_messages pf 0 false b) (list_messages-session pf 0 false b) v
  run_command-IsValid list_last arg b v at =
      let n = if atoi arg == 0 then 10 else atoi arg in
      IsValid-session b (list_messages pf n false b) (list_messages-session pf n false b) v
  run_command-IsValid list_mine arg b v at =
      IsValid-session b (list_messages pf 0 true b) (list_messages-session pf 0 true b) v
  run_command-IsValid read arg b v at =
      with_id-IsValid _ (cmd_read pf) arg b (λ id. cmd_read-session pf id b) v
  run_command-IsValid send arg b v at = cmd_send-IsValid pf false _ arg b at v
  run_command-IsValid send_private arg b v at = cmd_send-IsValid pf true _ arg b at v
  run_command-IsValid send_bulletin arg b v at = cmd_send-IsValid pf false _ arg b at v
  run_command-IsValid kill arg b v at =
      with_id-IsValid _ (cmd_kill pf) arg b (λ id. cmd_kill-session pf id b) v
  run_command-IsValid heard_list arg b v at = v
  run_command-IsValid info arg b v at = v
  run_command-IsValid enter_config arg b v at = cmd_config-IsValid pf b at v
  run_command-IsValid enter_terminal arg b v at = cmd_terminal-IsValid pf b at v
  run_command-IsValid bye arg b v at = v
  run_command-IsValid login arg b v at = cmd_sysop-IsValid arg b v at
  run_command-IsValid unknown arg b v at = v

  check_activity-IsValid :
      (b : Bbs C) → IsValid b → b.input_mode ≡ command → IsValid (check_activity pf b)
  unfolding check_activity
  check_activity-IsValid b v at =
      let b' = sysop_expire_authenticated_if_idle pf b in
      let v' = expire_if_idle-IsValid pf b at v in
      let now = pf.now_ms b'.outside in
      let same = note_activity-modes now b'.sysop_auth in
      elim (Bool-cases (is_authenticated b'.sysop_auth)) [
        | inr out ↦ rw (out, check_activity) v'
        | inl active ↦
            rw (active, check_activity)
              (record {
                is_login = v'.is_login ∙ ground (arith, same);
                privileged = v'.privileged;
                waiting = v'.waiting ∙ ground (arith, same);
                auth_valid = note_activity-IsValid b'.sysop_auth v'.auth_valid now;
                line_fits = v'.line_fits;
                body_fits = v'.body_fits;
              })
      ]

  mode-check_activity : (b : Bbs C) → (check_activity pf b).input_mode ≡ b.input_mode
  unfolding check_activity sysop_expire_authenticated_if_idle
  mode-check_activity b = ground arith

  pub process_command-IsValid :
      (line : Bytes) (b : Bbs C)
      → IsValid b
      → b.input_mode ≡ command
      → IsValid (process_command pf line b)
  unfolding process_command
  process_command-IsValid line b v at = elim (Bool-cases (is_empty (scan_command line).0)) [
    | inl blank ↦ rw (blank, process_command) v
    | inr some_cmd ↦
        rw (some_cmd, process_command)
          (run_command-IsValid (command_of (scan_command line).0) (scan_command line).1
            (check_activity pf b) (check_activity-IsValid b v at) (mode-check_activity b ∙ at))
  ]
