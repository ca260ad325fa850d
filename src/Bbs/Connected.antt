-- ===== src/Bbs/Connected.antt =====
-- main/bbs.c: no byte received connects or disconnects the session.
use esp_tnc.Prelude.{
  ℕ, ◌≡◌, refl, ◌∙◌, Bool, true, false, [], ◌∷◌, Bytes, codes, c_str, if◌then◌else◌, arith, inl,
  inr, Bool-cases, ◌==◌, is_empty,
}
use esp_tnc.Bbs.Outside.{Platform}
use esp_tnc.Bbs.State.{Bbs}
use esp_tnc.Bbs.Sysop.{
  show_challenge, sysop_issue_challenge, sysop_expire_authenticated_if_idle,
  sysop_send_lockout_message, enter_config_mode, enter_terminal_mode, exit_terminal_mode,
  on_auth_success, on_verdict, renew_challenge, take_response, handle_sysop_response,
}
use esp_tnc.Bbs.Messages.{
  list_messages, cmd_read, read_found, show_message, set_last_read, cmd_kill, kill_found,
  finish_post,
}
use esp_tnc.Bbs.Commands.{
  Command, help, list, list_last, list_mine, read, send, send_private, send_bulletin, kill,
  heard_list, info, enter_config, enter_terminal, bye, login, unknown, command_of, flag_private,
  flag_bulletin, run_command, start_post, cmd_send, bypass_if_empty, challenge_first, cmd_config,
  cmd_terminal, login_unlocked, login_secret, cmd_sysop, cmd_bye, with_id, check_activity,
  process_command,
}
use esp_tnc.Bbs.Scanning.{scan_command, atoi}
use esp_tnc.Bbs.Callsign.{is_valid_callsign}
use esp_tnc.Bbs.Lines.{
  subject_line, add_body_line, body_line, config_line, write_failed, forward_eol, forward_line,
  reset_tnc, terminal_line, dispatch_line, process_input_line, on_lf, on_text, on_line_byte,
  on_byte, on_bytes,
}

module _ {C : Type 0} (pf : Platform C) where
  sysop_issue_challenge-connected :
      (b : Bbs C) → (sysop_issue_challenge pf b).connected ≡ b.connected
  unfolding sysop_issue_challenge show_challenge
  sysop_issue_challenge-connected b = ground arith

  handle_sysop_response-connected :
      (line : Bytes) (b : Bbs C) → (handle_sysop_response pf line b).connected ≡ b.connected
  unfolding handle_sysop_response renew_challenge take_response on_verdict on_auth_success
      enter_terminal_mode sysop_send_lockout_message
  handle_sysop_response-connected line b = ground (arith, sysop_issue_challenge-connected b)

  challenge_first-connected :
      (defer : esp_tnc.Auth.State → esp_tnc.Auth.State) (b : Bbs C)
      → (challenge_first pf defer b).connected ≡ b.connected
  unfolding challenge_first sysop_send_lockout_message
  challenge_first-connected defer b = ground (
    arith,
    sysop_issue_challenge-connected (record b {
      sysop_auth = defer (esp_tnc.Auth.is_locked_out (pf.now_ms b.outside) b.sysop_auth).1;
    }),
  )

  cmd_sysop-connected : (arg : Bytes) (b : Bbs C) → (cmd_sysop pf arg b).connected ≡ b.connected
  unfolding cmd_sysop login_secret login_unlocked bypass_if_empty sysop_send_lockout_message
      sysop_issue_challenge show_challenge
  cmd_sysop-connected arg b = ground arith

  cmd_config-connected : (b : Bbs C) → (cmd_config pf b).connected ≡ b.connected
  unfolding cmd_config bypass_if_empty enter_config_mode
  cmd_config-connected b =
      ground (arith, challenge_first-connected (esp_tnc.Auth.set_deferred_config true) b)

  cmd_terminal-connected : (b : Bbs C) → (cmd_terminal pf b).connected ≡ b.connected
  unfolding cmd_terminal bypass_if_empty enter_terminal_mode
  cmd_terminal-connected b =
      ground (arith, challenge_first-connected (esp_tnc.Auth.set_deferred_console true) b)

  cmd_send-connected :
      (is_sp : Bool) (flags : ℕ) (arg : Bytes) (b : Bbs C)
      → (cmd_send pf is_sp flags arg b).connected ≡ b.connected
  unfolding cmd_send start_post
  cmd_send-connected is_sp flags arg b = ground arith

  list_messages-connected :
      (n : ℕ) (mine : Bool) (b : Bbs C) → (list_messages pf n mine b).connected ≡ b.connected
  unfolding list_messages
  list_messages-connected n mine b = ground arith

  cmd_read-connected :
      (arg : Bytes) (u : Bytes) (b : Bbs C)
      → (with_id pf u (cmd_read pf) arg b).connected ≡ b.connected
  unfolding with_id cmd_read read_found show_message set_last_read
  cmd_read-connected arg u b = ground arith

  cmd_kill-connected :
      (arg : Bytes) (u : Bytes) (b : Bbs C)
      → (with_id pf u (cmd_kill pf) arg b).connected ≡ b.connected
  unfolding with_id cmd_kill kill_found
  cmd_kill-connected arg u b = ground arith

  run_command-connected :
      (cmd : Command) (arg : Bytes) (b : Bbs C) → (run_command pf cmd arg b).connected ≡ b.connected
  unfolding run_command cmd_bye
  run_command-connected help arg b = refl
  run_command-connected list arg b = list_messages-connected 0 false b
  run_command-connected list_last arg b =
      list_messages-connected (if atoi arg == 0 then 10 else atoi arg) false b
  run_command-connected list_mine arg b = list_messages-connected 0 true b
  run_command-connected read arg b = cmd_read-connected arg (codes "Usage: R <n>\r") b
  run_command-connected send arg b =
      cmd_send-connected false (if is_valid_callsign arg then flag_private else flag_bulletin) arg b
  run_command-connected send_private arg b = cmd_send-connected true flag_private arg b
  run_command-connected send_bulletin arg b = cmd_send-connected false flag_bulletin arg b
  run_command-connected kill arg b = cmd_kill-connected arg (codes "Usage: K <n>\r") b
  run_command-connected heard_list arg b = refl
  run_command-connected info arg b = refl
  run_command-connected enter_config arg b = cmd_config-connected b
  run_command-connected enter_terminal arg b = cmd_terminal-connected b
  run_command-connected bye arg b = refl
  run_command-connected login arg b = cmd_sysop-connected arg b
  run_command-connected unknown arg b = refl

  check_activity-connected : (b : Bbs C) → (check_activity pf b).connected ≡ b.connected
  unfolding check_activity sysop_expire_authenticated_if_idle
  check_activity-connected b = ground arith

  process_command-connected :
      (line : Bytes) (b : Bbs C) → (process_command pf line b).connected ≡ b.connected
  unfolding process_command
  process_command-connected line b = elim (Bool-cases (is_empty (scan_command line).0)) [
    | inl blank ↦ rw (blank, process_command) refl
    | inr given ↦
        rw (given, process_command)
          (run_command-connected (command_of (scan_command line).0) (scan_command line).1
              (check_activity pf b)
            ∙ check_activity-connected b)
  ]

  body_line-connected : (line : Bytes) (b : Bbs C) → (body_line pf line b).connected ≡ b.connected
  unfolding body_line add_body_line finish_post
  body_line-connected line b = ground arith

  config_line-connected :
      (line : Bytes) (b : Bbs C) → (config_line pf line b).connected ≡ b.connected
  unfolding config_line
  config_line-connected line b = ground arith

  terminal_line-connected :
      (line : Bytes) (b : Bbs C) → (terminal_line pf line b).connected ≡ b.connected
  unfolding terminal_line exit_terminal_mode reset_tnc forward_line forward_eol write_failed
  terminal_line-connected line b = ground arith

  process_input_line-connected : (b : Bbs C) → (process_input_line pf b).connected ≡ b.connected
  unfolding process_input_line dispatch_line subject_line
  process_input_line-connected b =
      let line = c_str b.line_buf in
      ground (
        arith,
        process_command-connected line b,
        body_line-connected line b,
        handle_sysop_response-connected line b,
        config_line-connected line b,
        terminal_line-connected line b,
      )

  on_byte-connected : (c : ℕ) (b : Bbs C) → (on_byte pf c b).connected ≡ b.connected
  unfolding on_byte on_line_byte on_lf on_text finish_post
  on_byte-connected c b = ground (arith, process_input_line-connected b)

  pub on_bytes-connected : (d : Bytes) (b : Bbs C) → (on_bytes pf d b).connected ≡ b.connected
  unfolding on_bytes
  on_bytes-connected [] b = refl
  on_bytes-connected (c ∷ d) b =
      on_bytes-connected d (if b.stuck then b else on_byte pf c b)
      ∙ ground (arith, on_byte-connected c b)
