-- ===== src/Bbs/Sysop.antt =====
-- main/bbs.c: the sysop's login, and the configuration and terminal modes.
use esp_tnc.Prelude.{
  Bool, true, false, not, ◌&&◌, none, some, ◌++◌, Bytes, codes, strlcpy, decimal, if◌then◌else◌,
}
use esp_tnc.Esp.{is_ok}
use esp_tnc.Auth.{
  Verdict, success, failed, lockout, expired, no_active, State, Issued, is_awaiting_response,
  issue_challenge, lockout_minutes, expire_authenticated_if_idle, take_deferred_config,
  take_deferred_console, submit_response,
}
use esp_tnc.Bbs.Outside.{Platform}
use esp_tnc.Bbs.Callsign.{equals_ignore_case_ascii}
use esp_tnc.Bbs.State.{command, sysop_response, config, terminal, Bbs, send_text, send_prompt}

module _ {C : Type 0} (pf : Platform C) where
  -- What `sysop_auth_issue_challenge` came to.
  unfoldable pub show_challenge : Bbs C → C → Issued → Bbs C
  show_challenge b c (err, chal, id, auth) =
      if not (is_ok err)
      then send_prompt pf (
          send_text pf (codes "*** SYSOP challenge unavailable\r") (record b { sysop_auth = auth }))
      else send_text pf chal
          (record b { sysop_auth = auth; input_mode = sysop_response; outside = c })

  unfoldable pub sysop_issue_challenge : Bbs C → Bbs C
  unfolding show_challenge
  sysop_issue_challenge b =
      let (draws, c) = pf.random b.outside in
      elim (issue_challenge draws (pf.now_ms b.outside) 64 b.sysop_auth) [
        | none ↦ record b { stuck = true }
        | some issued ↦ show_challenge b c issued
      ]

  unfoldable pub sysop_expire_authenticated_if_idle : Bbs C → Bbs C
  sysop_expire_authenticated_if_idle b =
      let (over, auth) = expire_authenticated_if_idle (pf.now_ms b.outside) b.sysop_auth in
      if over
      then send_text pf (codes "*** SYSOP session expired\r")
          (record b { sysop_auth = auth; is_sysop = false })
      else record b { sysop_auth = auth }

  unfoldable pub sysop_send_lockout_message : Bbs C → Bbs C
  sysop_send_lockout_message b =
      send_text pf
        (strlcpy 80 (
          codes "*** SYSOP locked out for "
          ++ (decimal (lockout_minutes b.sysop_auth) ++ codes " minutes\r")))
        b

  -- The two lines that announce the configuration mode.
  abbrev pub announce_config : Bbs C → Bbs C
  announce_config b =
      send_text pf
        (codes "Commands: set get clear show show all save config commit revert reboot exit\r")
        (send_text pf (codes "*** Entering config mode\r") b)

  unfoldable pub enter_config_mode : Bbs C → Bbs C
  enter_config_mode b =
      send_prompt pf
        (announce_config (record b { outside = pf.cfg_set_output b.outside; input_mode = config }))

  unfoldable pub enter_terminal_mode : Bbs C → Bbs C
  enter_terminal_mode b = send_prompt pf (
      send_text pf
        (codes "Lines are forwarded to TNC as-is. /exit to quit, /reset to send KISS reset.\r")
        (send_text pf (codes "*** Entering terminal mode (TNC terminal)\r")
          (record b { input_mode = terminal; outside = pf.set_rx_tap b.outside })))

  unfoldable pub exit_terminal_mode : Bbs C → Bbs C
  exit_terminal_mode b = send_prompt pf (
      send_text pf (codes "*** Exiting terminal mode\r")
        (record b { outside = pf.clear_rx_tap b.outside; input_mode = command }))

  -- `terminal_rx_tap_cb`: what the TNC sends, while the tap is set.
  unfoldable pub terminal_rx_tap : Bytes → Bbs C → Bbs C
  terminal_rx_tap d b = elim b.input_mode [ terminal ↦ send_text pf d b | _ ↦ b ]

  -- The response was right: on to the mode that asked for it.
  unfoldable pub on_auth_success : Bool → Bool → Bbs C → Bbs C
  unfolding enter_terminal_mode
  on_auth_success enter_config enter_terminal b =
      let b' = send_text pf (codes "*** SYSOP authenticated\r") (record b { is_sysop = true }) in
      if enter_config && pf.cfg_is_initialized b'.outside
      then send_prompt pf (
          announce_config
            (record b' { outside = pf.cfg_set_output b'.outside; input_mode = config }))
      else if enter_terminal && (b'.uart_is_terminal_mode && b'.has_uart_phy)
      then enter_terminal_mode b'
      else send_prompt pf b'

  abbrev pub auth_failed_text : State → Bytes
  auth_failed_text s = strlcpy 64 (
      codes "*** SYSOP auth failed ("
      ++ (decimal s.failed_attempts ++ (codes "/" ++ (decimal s.max_attempts ++ codes ")\r"))))

  -- In command mode again, with the verdict on the response.
  unfoldable pub on_verdict : Bool → Bool → Verdict → Bbs C → Bbs C
  unfolding on_auth_success sysop_send_lockout_message
  on_verdict enter_config enter_terminal success b = on_auth_success enter_config enter_terminal b
  on_verdict enter_config enter_terminal lockout b =
      send_prompt pf (sysop_send_lockout_message (record b { is_sysop = false }))
  on_verdict enter_config enter_terminal expired b =
      send_prompt pf
        (send_text pf (codes "*** SYSOP challenge expired\r") (record b { is_sysop = false }))
  on_verdict enter_config enter_terminal no_active b =
      send_prompt pf
        (send_text pf (codes "*** SYSOP challenge expired\r") (record b { is_sysop = false }))
  on_verdict enter_config enter_terminal failed b =
      send_prompt pf (send_text pf (auth_failed_text b.sysop_auth) b)

  -- SYSOP NEW in place of a response.
  unfoldable pub renew_challenge : Bbs C → Bbs C
  renew_challenge b =
      if is_awaiting_response b.sysop_auth
      then sysop_issue_challenge b
      else send_prompt pf (send_text pf (codes "*** No active SYSOP challenge\r") b)

  -- A line that is taken for the response.
  unfoldable pub take_response : Bytes → Bbs C → Bbs C
  unfolding on_verdict
  take_response line b =
      let now = pf.now_ms b.outside in
      let (enter_config, auth) = take_deferred_config b.sysop_auth in
      let (enter_terminal, auth') = take_deferred_console auth in
      let (verdict, auth'') = submit_response line now auth' in
      on_verdict enter_config enter_terminal verdict
        (record b { sysop_auth = auth''; input_mode = command })

  unfoldable pub handle_sysop_response : Bytes → Bbs C → Bbs C
  unfolding renew_challenge take_response
  handle_sysop_response line b =
      if equals_ignore_case_ascii line (codes "SYSOP NEW")
      then renew_challenge b
      else take_response line b
