-- ===== src/Bbs/Lines.antt =====
-- main/bbs.c: `bbs_process_input_line` and `bbs_on_data`.
use esp_tnc.Prelude.{
  ℕ, ◌-◌, Bool, true, false, not, ◌&&◌, [], ◌∷◌, ◌++◌, Bytes, codes, c_str, strlcpy, decimal, ltb,
  leb, ◌==◌, if◌then◌else◌, is_empty, length, take,
}
use esp_tnc.Esp.{is_ok}
use esp_tnc.Storage.{free_bytes}
use esp_tnc.Bbs.Outside.{Platform}
use esp_tnc.Bbs.Sending.{cr}
use esp_tnc.Bbs.Callsign.{equals_ignore_case_ascii}
use esp_tnc.Bbs.State.{
  InputMode, command, subject, body, sysop_response, config, terminal, Bbs, send_text, send_prompt,
}
use esp_tnc.Bbs.Sysop.{handle_sysop_response, exit_terminal_mode}
use esp_tnc.Bbs.Messages.{finish_post}
use esp_tnc.Bbs.Commands.{process_command}

-- CONFIG_BBS_MAX_BODY_LEN as Kconfig.projbuild sets it, which is sizeof(bbs->pending_body) - 1
abbrev pub max_body : ℕ
max_body = 4096

-- sizeof(bbs->line_buf)
abbrev pub line_size : ℕ
line_size = 256

abbrev pub is_body : InputMode → Bool
is_body body = true
is_body _ = false

module _ {C : Type 0} (pf : Platform C) where
  -- The subject is in; the body is asked for next.
  unfoldable pub subject_line : Bytes → Bbs C → Bbs C
  subject_line line b =
      let (err, free) = free_bytes (pf.littlefs_info b.outside) b.storage in
      send_text pf (codes "Enter body, use /EX to finish:\r") (
        send_text pf
          (strlcpy 80 (
            codes "Max message size: "
            ++ (decimal max_body
                ++ (codes " bytes, Total storage free: " ++ (decimal free ++ codes " bytes\r")))))
          (record b {
            pending_subject = strlcpy 49 (if is_empty line then codes "(no subject)" else line);
            input_mode = body;
          }))

  -- A line of the body goes in as far as there is room, with a CR behind it.
  unfoldable pub add_body_line : Bytes → Bbs C → Bbs C
  add_body_line line b =
      let remain = max_body - length b.pending_body in
      if leb remain 2
      then send_text pf (codes "*** Body full, use /EX to finish\r") b
      else if ltb (remain - 2) (length line)
      then send_text pf (codes "*** Body limit reached, use /EX to finish\r")
          (record b { pending_body = b.pending_body ++ (take (remain - 2) line ++ cr) })
      else record b { pending_body = b.pending_body ++ (line ++ cr) }

  unfoldable pub body_line : Bytes → Bbs C → Bbs C
  unfolding add_body_line
  body_line line b =
      if equals_ignore_case_ascii line (codes "/EX") then finish_post pf b else add_body_line line b

  unfoldable pub config_line : Bytes → Bbs C → Bbs C
  config_line line b =
      let (exit_cfg, c) = pf.cfg_handle_command line b.outside in
      if exit_cfg
      then send_prompt pf (
          send_text pf (codes "*** Exiting config mode\r")
            (record b { outside = c; input_mode = command }))
      else send_prompt pf (record b { outside = c })

  unfoldable pub write_failed : Bbs C → Bbs C
  write_failed b = send_prompt pf (send_text pf (codes "*** UART write failed\r") b)

  -- The CR behind a line that went to the TNC.
  unfoldable pub forward_eol : Bbs C → Bbs C
  unfolding write_failed
  forward_eol b =
      let (err, c) = pf.uart_write_raw cr b.outside in
      if not (is_ok err) then write_failed (record b { outside = c }) else record b { outside = c }

  unfoldable pub forward_line : Bytes → Bbs C → Bbs C
  unfolding forward_eol write_failed
  forward_line line b =
      if is_empty line
      then forward_eol b
      else let (err, c) = pf.uart_write_raw line b.outside in
        if not (is_ok err)
        then write_failed (record b { outside = c })
        else forward_eol (record b { outside = c })

  unfoldable pub reset_tnc : Bbs C → Bbs C
  reset_tnc b =
      let (err, c) = pf.uart_write_raw (0xC0 ∷ 0xFF ∷ 0xC0 ∷ []) b.outside in
      send_prompt pf (
        send_text pf
          (if is_ok err then codes "*** KISS reset sent\r" else codes "*** KISS reset failed\r")
          (record b { outside = c }))

  unfoldable pub terminal_line : Bytes → Bbs C → Bbs C
  unfolding forward_line reset_tnc
  terminal_line line b =
      if equals_ignore_case_ascii line (codes "/EXIT")
      then exit_terminal_mode pf b
      else if equals_ignore_case_ascii line (codes "/RESET")
      then reset_tnc b
      else forward_line line b

  -- The line is what the mode makes of it.
  unfoldable pub dispatch_line : Bytes → Bbs C → Bbs C
  unfolding subject_line body_line config_line terminal_line
  dispatch_line line b = elim b.input_mode [
    | command ↦ process_command pf line b
    | subject ↦ subject_line line b
    | body ↦ body_line line b
    | sysop_response ↦ handle_sysop_response pf line b
    | config ↦ config_line line b
    | terminal ↦ terminal_line line b
  ]

  unfoldable pub process_input_line : Bbs C → Bbs C
  unfolding dispatch_line
  process_input_line b = record (dispatch_line (c_str b.line_buf) b) { line_buf = [] }

  -- A LF ends a line, but for the one behind a CR.
  unfoldable pub on_lf : Bbs C → Bbs C
  on_lf b =
      if b.suppress_lf_after_cr
      then record b { suppress_lf_after_cr = false }
      else process_input_line b

  -- Any other byte is put in the line while there is room.
  unfoldable pub on_text : ℕ → Bbs C → Bbs C
  on_text c b =
      if ltb (length b.line_buf) (line_size - 1)
      then record b { suppress_lf_after_cr = false; line_buf = b.line_buf ++ (c ∷ []) }
      else record b { suppress_lf_after_cr = false }

  -- A byte that does not end a body.
  unfoldable pub on_line_byte : ℕ → Bbs C → Bbs C
  unfolding on_lf on_text
  on_line_byte c b =
      if c == b'\r'
      then record (process_input_line b) { suppress_lf_after_cr = true }
      else if c == b'\n'
      then on_lf b
      else on_text c b

  -- One round of the loop of `bbs_on_data`.
  unfoldable pub on_byte : ℕ → Bbs C → Bbs C
  unfolding process_input_line on_line_byte
  on_byte c b = if is_body b.input_mode && c == 0x1A then finish_post pf b else on_line_byte c b

  -- A search for a challenge that does not end leaves the loop where it is.
  unfoldable pub on_bytes : Bytes → Bbs C → Bbs C
  unfolding on_byte
  on_bytes [] b = b
  on_bytes (c ∷ d) b = on_bytes d (if b.stuck then b else on_byte c b)

  unfoldable pub on_data : Bytes → Bbs C → Bbs C
  unfolding on_bytes
  on_data d b = if not b.connected then b else on_bytes d b
