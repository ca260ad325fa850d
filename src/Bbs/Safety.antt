-- ===== src/Bbs/Safety.antt =====
-- main/bbs.c: the invariant of the session is kept by every line.
use esp_tnc.Prelude.{
  ◌-◌, ◌<◌, ◌≡◌, refl, ◌∙◌, sym, ap, false, [], ◌++◌, Bytes, codes, length, length-append,
  length-take, take, arith, inl, inr, Bool-cases, ltb, leb,
}
use esp_tnc.Bbs.Outside.{Platform}
use esp_tnc.Bbs.Sending.{cr}
use esp_tnc.Bbs.Callsign.{equals_ignore_case_ascii}
use esp_tnc.Bbs.State.{InputMode, command, subject, body, sysop_response, config, terminal, Bbs}
use esp_tnc.Bbs.Sysop.{exit_terminal_mode}
use esp_tnc.Bbs.Messages.{finish_post}
use esp_tnc.Bbs.Lines.{
  max_body, subject_line, add_body_line, body_line, config_line, write_failed, forward_eol,
  forward_line, reset_tnc, terminal_line, dispatch_line,
}
use esp_tnc.Bbs.Valid.{Holds, IsValid, is_response, is_privileged}
use esp_tnc.Bbs.Login.{handle_sysop_response-IsValid}
use esp_tnc.Bbs.Rights.{session, IsValid-session}
use esp_tnc.Bbs.Dispatch.{process_command-IsValid}

module _ {C : Type 0} (pf : Platform C) where
  -- From a mode that takes no response to one that is open to all, with this body.
  to_open :
      (m : InputMode) (b : Bbs C) (text : Bytes)
      → is_response b.input_mode ≡ false
      → is_response m ≡ false
      → is_privileged m ≡ false
      → length text < 4096
      → IsValid b
      → Holds b.is_sysop m b.sysop_auth b.line_buf text
  to_open m b text plain plain_m anyones fits v = record {
    is_login = v.is_login;
    privileged = λ p. cc;
    waiting = plain_m ∙ sym plain ∙ v.waiting;
    auth_valid = v.auth_valid;
    line_fits = v.line_fits;
    body_fits = fits;
  }

  pub finish_post-IsValid :
      (b : Bbs C) → b.input_mode ≡ body → IsValid b → IsValid (finish_post pf b)
  unfolding finish_post
  finish_post-IsValid b at v = to_open command b [] (ap is_response at) refl refl (omega arith) v

  with_body :
      (text : Bytes) (b : Bbs C)
      → length text < 4096
      → IsValid b
      → IsValid (record b { pending_body = text })
  with_body text b fits v = record {
    is_login = v.is_login;
    privileged = v.privileged;
    waiting = v.waiting;
    auth_valid = v.auth_valid;
    line_fits = v.line_fits;
    body_fits = fits;
  }

  add_body_line-IsValid : (line : Bytes) (b : Bbs C) → IsValid b → IsValid (add_body_line pf line b)
  unfolding add_body_line
  add_body_line-IsValid line b v =
      let remain = max_body - length b.pending_body in
      let cut = take (remain - 2) line in
      elim (Bool-cases (leb remain 2)) [
        | inl full ↦ rw (full, add_body_line) v
        | inr room ↦ elim (Bool-cases (ltb (remain - 2) (length line))) [
          | inl long ↦
              rw (room, add_body_line)
                (rw (long, add_body_line)
                  (with_body (b.pending_body ++ (cut ++ cr)) b
                    (rw
                      (
                        length-append b.pending_body (cut ++ cr),
                        length-append cut cr,
                        length-take (remain - 2) line,
                      )
                      (ground arith))
                    v))
          | inr short ↦
              rw (room, add_body_line)
                (rw (short, add_body_line)
                  (with_body (b.pending_body ++ (line ++ cr)) b
                    (rw (length-append b.pending_body (line ++ cr), length-append line cr)
                      (ground arith))
                    v))
        ]
      ]

  body_line-IsValid :
      (line : Bytes) (b : Bbs C) → b.input_mode ≡ body → IsValid b → IsValid (body_line pf line b)
  unfolding body_line
  body_line-IsValid line b at v = elim (Bool-cases (equals_ignore_case_ascii line (codes "/EX"))) [
    | inl done ↦ rw (done, body_line) (finish_post-IsValid b at v)
    | inr more ↦ rw (more, body_line) (add_body_line-IsValid line b v)
  ]

  config_line-IsValid :
      (line : Bytes) (b : Bbs C)
      → b.input_mode ≡ config
      → IsValid b
      → IsValid (config_line pf line b)
  unfolding config_line
  config_line-IsValid line b at v = elim (Bool-cases (pf.cfg_handle_command line b.outside).0) [
    | inl leave ↦
        rw (leave, config_line)
          (to_open command b b.pending_body (ap is_response at) refl refl v.body_fits v)
    | inr stay ↦ rw (stay, config_line) v
  ]

  forward_line-session : (line : Bytes) (b : Bbs C) → session (forward_line pf line b) ≡ session b
  unfolding forward_line forward_eol write_failed
  forward_line-session line b = ground arith

  terminal_line-IsValid :
      (line : Bytes) (b : Bbs C)
      → b.input_mode ≡ terminal
      → IsValid b
      → IsValid (terminal_line pf line b)
  unfolding terminal_line exit_terminal_mode reset_tnc
  terminal_line-IsValid line b at v =
      elim (Bool-cases (equals_ignore_case_ascii line (codes "/EXIT"))) [
        | inl leave ↦
            rw (leave, terminal_line)
              (to_open command b b.pending_body (ap is_response at) refl refl v.body_fits v)
        | inr stay ↦ elim (Bool-cases (equals_ignore_case_ascii line (codes "/RESET"))) [
          | inl reset ↦ rw (stay, terminal_line) (rw (reset, terminal_line) v)
          | inr text ↦
              rw (stay, terminal_line)
                (rw (text, terminal_line)
                  (IsValid-session b (forward_line pf line b) (forward_line-session line b) v))
        ]
      ]

  pub dispatch_line-IsValid :
      (line : Bytes) (b : Bbs C) → IsValid b → IsValid (dispatch_line pf line b)
  unfolding dispatch_line subject_line
  dispatch_line-IsValid line b v = by_mode b.input_mode refl
    where
      by_mode : (m : InputMode) → b.input_mode ≡ m → IsValid (dispatch_line pf line b)
      by_mode command e = rw (e, dispatch_line) (process_command-IsValid pf line b v e)
      by_mode subject e =
          rw (e, dispatch_line)
            (to_open body b b.pending_body (ap is_response e) refl refl v.body_fits v)
      by_mode body e = rw (e, dispatch_line) (body_line-IsValid line b e v)
      by_mode sysop_response e =
          rw (e, dispatch_line) (handle_sysop_response-IsValid pf line b v (ap is_response e))
      by_mode config e = rw (e, dispatch_line) (config_line-IsValid line b e v)
      by_mode terminal e = rw (e, dispatch_line) (terminal_line-IsValid line b e v)
