-- ===== src/Bbs/Commands.antt =====
-- main/bbs.c: `process_command`.
use esp_tnc.Prelude.{
  ℕ, Bool, true, false, not, ◌&&◌, ◌||◌, List, [], ◌∷◌, ◌++◌, Bytes, codes, strlcpy, str_eq, ◌==◌,
  if◌then◌else◌, is_empty, map,
}
use esp_tnc.Auth.{
  State, secret_is_empty, is_locked_out, is_authenticated, is_awaiting_response, note_activity,
  bypass_authenticate, set_deferred_config, set_deferred_console,
}
use esp_tnc.Heard.{Entry, snapshot, seconds, heard_max}
use esp_tnc.Bbs.Outside.{Platform}
use esp_tnc.Bbs.Sending.{cr}
use esp_tnc.Bbs.Callsign.{base_callsign, is_valid_callsign, equals_ignore_case_ascii}
use esp_tnc.Bbs.State.{subject, Bbs, send_text, send_texts, send_prompt}
use esp_tnc.Bbs.Scanning.{scan_command, strtoul, atoi, format_elapsed_since}
use esp_tnc.Bbs.Sysop.{
  sysop_issue_challenge, sysop_expire_authenticated_if_idle, sysop_send_lockout_message,
  enter_config_mode, enter_terminal_mode,
}
use esp_tnc.Bbs.Messages.{pad_right, list_messages, cmd_read, cmd_kill}

-- The texts that `process_command` compares the command with, and all others.
pub data Command : Type 0 where
  help list list_last list_mine read send send_private send_bulletin kill heard_list info : Command
  enter_config enter_terminal bye login unknown : Command

unfoldable pub command_of : Bytes → Command
command_of cmd =
    if str_eq cmd (codes "H") || str_eq cmd (codes "?")
    then help
    else if str_eq cmd (codes "L")
    then list
    else if str_eq cmd (codes "LL")
    then list_last
    else if str_eq cmd (codes "LM")
    then list_mine
    else if str_eq cmd (codes "R")
    then read
    else if str_eq cmd (codes "S")
    then send
    else if str_eq cmd (codes "SP")
    then send_private
    else if str_eq cmd (codes "SB")
    then send_bulletin
    else if str_eq cmd (codes "K")
    then kill
    else if str_eq cmd (codes "J")
    then heard_list
    else if str_eq cmd (codes "I")
    then info
    else if str_eq cmd (codes "CONFIG")
    then enter_config
    else if str_eq cmd (codes "TERM")
    then enter_terminal
    else if str_eq cmd (codes "B")
    then bye
    else if str_eq cmd (codes "SYSOP")
    then login
    else unknown

abbrev pub help_texts : List Bytes
help_texts =
    codes "Commands:\r"
    ∷ codes "  B           Disconnect\r"
    ∷ codes "  CONFIG      Enter OTA configuration mode\r"
    ∷ codes "  H           Show this help text\r"
    ∷ codes "  I           Show BBS station information\r"
    ∷ codes "  J           Show heard list\r"
    ∷ codes "  K <n>       Delete message n\r"
    ∷ codes "  L           List readable messages\r"
    ∷ codes "  LL [n]      List newest n readable messages\r"
    ∷ codes "  LM          List only my sent/received messages\r"
    ∷ codes "  R <n>       Read message n\r"
    ∷ codes "  S <to>      Send message (auto private/bulletin)\r"
    ∷ codes "  SB <topic>  Send bulletin message\r"
    ∷ codes "  SP <call>   Send private message\r"
    ∷ codes "  SYSOP       Start SYSOP challenge login\r"
    ∷ codes "  SYSOP NEW   Refresh active SYSOP challenge\r"
    ∷ codes "  TERM        Enter TNC terminal mode\r"
    ∷ []

-- BBS_MSG_FLAG_PRIVATE, BBS_MSG_FLAG_BULLETIN
abbrev pub flag_private : ℕ
flag_private = 1

abbrev pub flag_bulletin : ℕ
flag_bulletin = 2

-- A line of the heard list, in 64 bytes.
unfoldable pub heard_line : ℕ → Entry → Bytes
heard_line now e = strlcpy 64 (
    codes "  "
    ++ (pad_right 15 e.callsign
        ++ (codes " " ++ (format_elapsed_since e.last_heard_unix now ++ cr))))

unfoldable pub heard_texts : ℕ → List Entry → List Bytes
unfolding heard_line
heard_texts now es =
    codes "Heard:\r  Callsign        Last heard\r"
    ∷ (map (λ e. heard_line now e) es ++ (elim es [ [] ↦ codes "  (none)\r" ∷ [] | _ ∷ _ ↦ [] ]))

module _ {C : Type 0} where
  unfoldable pub info_text : Bbs C → Bytes
  info_text b = strlcpy 160 (
      codes "BBS "
      ++ (b.version_text
          ++ (codes "  Call:" ++ (b.bbs_callsign ++ (codes "  Sysop:" ++ (b.sysop_name ++ cr))))))

module _ {C : Type 0} (pf : Platform C) where
  -- The subject is asked for next.
  unfoldable pub start_post : ℕ → Bytes → Bbs C → Bbs C
  start_post flags to b = send_text pf (codes "\rSubject: \r") (record b {
    pending_flags = flags;
    pending_to = strlcpy 7 to;
    pending_subject = [];
    pending_body = [];
    input_mode = subject;
  })

  -- S, SP and SB.
  unfoldable pub cmd_send : Bool → ℕ → Bytes → Bbs C → Bbs C
  unfolding start_post
  cmd_send is_sp flags arg b =
      let to = base_callsign 7 arg in
      if is_empty to
      then send_prompt pf (send_text pf (codes "Usage: S|SP|SB <call/topic>\r") b)
      else if is_sp && not (is_valid_callsign arg)
      then send_prompt pf (send_text pf (codes "*** SP requires valid callsign\r") b)
      else start_post flags to b

  -- With an empty secret, everyone is the sysop.
  unfoldable pub bypass_if_empty : Bbs C → Bbs C
  bypass_if_empty b =
      if secret_is_empty b.sysop_auth
      then record b {
        is_sysop = true;
        sysop_auth = bypass_authenticate (pf.now_ms b.outside) b.sysop_auth;
      }
      else b

  -- A challenge for one who is not the sysop, or the lockout; `defer` notes what it is for.
  unfoldable pub challenge_first : (State → State) → Bbs C → Bbs C
  challenge_first defer b =
      let (locked, auth) = is_locked_out (pf.now_ms b.outside) b.sysop_auth in
      if locked
      then send_prompt pf (sysop_send_lockout_message pf (record b { sysop_auth = auth }))
      else sysop_issue_challenge pf (record b { sysop_auth = defer auth })

  unfoldable pub cmd_config : Bbs C → Bbs C
  unfolding challenge_first bypass_if_empty
  cmd_config b =
      if not (pf.cfg_is_initialized b.outside)
      then send_prompt pf (send_text pf (codes "*** Config module not available\r") b)
      else if not (secret_is_empty b.sysop_auth) && not b.is_sysop
      then challenge_first (set_deferred_config true) b
      else enter_config_mode pf
          (bypass_if_empty (record b { sysop_auth = set_deferred_config false b.sysop_auth }))

  unfoldable pub cmd_terminal : Bbs C → Bbs C
  unfolding challenge_first bypass_if_empty
  cmd_terminal b =
      if not b.uart_is_terminal_mode || not b.has_uart_phy
      then send_prompt pf (send_text pf (codes "*** Terminal mode requires uart.type=term\r") b)
      else if not (secret_is_empty b.sysop_auth) && not b.is_sysop
      then challenge_first (set_deferred_console true) b
      else enter_terminal_mode pf
          (bypass_if_empty (record b { sysop_auth = set_deferred_console false b.sysop_auth }))

  -- SYSOP from one who is not locked out.
  unfoldable pub login_unlocked : Bytes → Bbs C → Bbs C
  login_unlocked arg b =
      if b.is_sysop || is_authenticated b.sysop_auth
      then send_prompt pf (send_text pf (codes "*** SYSOP already authenticated\r") b)
      else if equals_ignore_case_ascii arg (codes "NEW") && is_awaiting_response b.sysop_auth
      then sysop_issue_challenge pf b
      else if is_awaiting_response b.sysop_auth
      then send_prompt pf
          (send_text pf (codes "*** SYSOP challenge active (use SYSOP NEW to refresh)\r") b)
      else sysop_issue_challenge pf b

  -- SYSOP where there is a secret.
  unfoldable pub login_secret : Bytes → Bbs C → Bbs C
  unfolding login_unlocked
  login_secret arg b =
      let (locked, auth) = is_locked_out (pf.now_ms b.outside) b.sysop_auth in
      if locked
      then send_prompt pf (sysop_send_lockout_message pf (record b { sysop_auth = auth }))
      else login_unlocked arg (record b { sysop_auth = auth })

  unfoldable pub cmd_sysop : Bytes → Bbs C → Bbs C
  unfolding login_secret bypass_if_empty
  cmd_sysop arg b =
      let b' : Bbs C = record b { sysop_auth = set_deferred_config false b.sysop_auth } in
      if secret_is_empty b'.sysop_auth
      then send_prompt pf (send_text pf (codes "*** SYSOP authenticated\r") (bypass_if_empty b'))
      else login_secret arg b'

  unfoldable pub cmd_bye : Bbs C → Bbs C
  cmd_bye b =
      let b' = send_text pf (codes "*** Bye\r") b in record b' { outside = pf.shutdown b'.outside }

  -- A number is required: `run` is given it, and 0 gets the usage.
  unfoldable pub with_id : Bytes → (ℕ → Bbs C → Bbs C) → Bytes → Bbs C → Bbs C
  with_id usage run arg b =
      send_prompt pf (if strtoul arg == 0 then send_text pf usage b else run (strtoul arg) b)

  unfoldable pub run_command : Command → Bytes → Bbs C → Bbs C
  unfolding cmd_send cmd_config cmd_terminal cmd_sysop cmd_bye with_id
  run_command help arg b = send_prompt pf (send_texts pf help_texts b)
  run_command list arg b = send_prompt pf (list_messages pf 0 false b)
  run_command list_last arg b =
      send_prompt pf (list_messages pf (if atoi arg == 0 then 10 else atoi arg) false b)
  run_command list_mine arg b = send_prompt pf (list_messages pf 0 true b)
  run_command read arg b = with_id (codes "Usage: R <n>\r") (cmd_read pf) arg b
  run_command send arg b =
      cmd_send false (if is_valid_callsign arg then flag_private else flag_bulletin) arg b
  run_command send_private arg b = cmd_send true flag_private arg b
  run_command send_bulletin arg b = cmd_send false flag_bulletin arg b
  run_command kill arg b = with_id (codes "Usage: K <n>\r") (cmd_kill pf) arg b
  run_command heard_list arg b =
      send_prompt pf (
        send_texts pf (heard_texts (seconds (pf.timer_us b.outside)) (snapshot b.heard heard_max))
          b)
  run_command info arg b = send_prompt pf (send_text pf (info_text b) b)
  run_command enter_config arg b = cmd_config b
  run_command enter_terminal arg b = cmd_terminal b
  run_command bye arg b = cmd_bye b
  run_command login arg b = cmd_sysop arg b
  run_command unknown arg b = send_prompt pf (send_texts pf help_texts b)

  -- The session's timer: an idle session ends, an active one is noted.
  unfoldable pub check_activity : Bbs C → Bbs C
  check_activity b =
      let b' = sysop_expire_authenticated_if_idle pf b in
      if is_authenticated b'.sysop_auth
      then record b' { sysop_auth = note_activity (pf.now_ms b'.outside) b'.sysop_auth }
      else b'

  unfoldable pub process_command : Bytes → Bbs C → Bbs C
  unfolding run_command check_activity
  process_command line b =
      let (cmd, arg) = scan_command line in
      if is_empty cmd then send_prompt pf b else run_command (command_of cmd) arg (check_activity b)
