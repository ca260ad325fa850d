-- ===== src/Bbs/Events.antt =====
-- main/bbs.c: the invariant of the session is kept by every event, from the start on.
use esp_tnc.Prelude.{
  ℕ, ◌<◌, ◌≡◌, refl, Bool, true, false, not, ◌&&◌, List, [], ◌∷◌, ◌++◌, Bytes, c_str, if◌then◌else◌,
  length, length-append, arith, ltb, ◌==◌,
}
use esp_tnc.Esp.{esp_ok}
use esp_tnc.Auth.{
  State, Config, configure, configured, reset_session, is_authenticated, is_awaiting_response, idle,
}
use esp_tnc.Auth.Session.{reset_session-IsValid, configure-IsValid}
use esp_tnc.Auth.Modes.{mode-reset_session}
use esp_tnc.Bbs.{BbsConfig, init, blank, set_texts, open_nvs, on_connect, on_disconnect}
use esp_tnc.Bbs.Outside.{Platform}
use esp_tnc.Bbs.State.{InputMode, command, subject, body, sysop_response, config, terminal, Bbs}
use esp_tnc.Bbs.Sysop.{terminal_rx_tap}
use esp_tnc.Bbs.Messages.{finish_post, send_banner}
use esp_tnc.Bbs.Lines.{
  dispatch_line, process_input_line, on_lf, on_text, on_line_byte, on_byte, on_bytes, on_data,
  is_body,
}
use esp_tnc.Bbs.Valid.{Holds, IsValid, if-IsValid}
use esp_tnc.Bbs.Rights.{session, IsValid-session, HoldsIn-same}
use esp_tnc.Bbs.Safety.{dispatch_line-IsValid, finish_post-IsValid}

-- What happens to a session: the callbacks that main/main.c and the UART driver call.
pub data Event : Type 0 where
  connected_to : Bytes → Event
  disconnected : Event
  received : Bytes → Event
  heard_from_tnc : Bytes → Event

module _ {C : Type 0} (pf : Platform C) where
  unfoldable pub on_event : Event → Bbs C → Bbs C
  on_event (connected_to call) b = on_connect pf call b
  on_event disconnected b = on_disconnect pf b
  on_event (received d) b = on_data pf d b
  on_event (heard_from_tnc d) b = terminal_rx_tap pf d b

  unfoldable pub on_events : List Event → Bbs C → Bbs C
  unfolding on_event
  on_events [] b = b
  on_events (e ∷ es) b = on_events es (on_event e b)

  with_line :
      (line : Bytes) (lf : Bool) (b : Bbs C)
      → length line < 256
      → IsValid b
      → IsValid (record b { line_buf = line; suppress_lf_after_cr = lf })
  with_line line lf b fits v = record {
    is_login = v.is_login;
    privileged = v.privileged;
    waiting = v.waiting;
    auth_valid = v.auth_valid;
    line_fits = fits;
    body_fits = v.body_fits;
  }

  process_input_line-IsValid : (b : Bbs C) → IsValid b → IsValid (process_input_line pf b)
  unfolding process_input_line
  process_input_line-IsValid b v =
      let b' = dispatch_line pf (c_str b.line_buf) b in
      with_line [] b'.suppress_lf_after_cr b' (omega arith)
        (dispatch_line-IsValid pf (c_str b.line_buf) b v)

  at_body : (m : InputMode) → is_body m ≡ true → m ≡ body
  at_body body h = refl
  at_body command h = ground arith
  at_body subject h = ground arith
  at_body sysop_response h = ground arith
  at_body config h = ground arith
  at_body terminal h = ground arith

  on_lf-IsValid : (b : Bbs C) → IsValid b → IsValid (on_lf pf b)
  unfolding on_lf
  on_lf-IsValid b v =
      if-IsValid b.suppress_lf_after_cr (record b { suppress_lf_after_cr = false })
        (process_input_line pf b) (λ after. v) (λ alone. process_input_line-IsValid b v)

  on_text-IsValid : (c : ℕ) (b : Bbs C) → IsValid b → IsValid (on_text pf c b)
  unfolding on_text
  on_text-IsValid c b v =
      if-IsValid (ltb (length b.line_buf) 255)
        (record b { suppress_lf_after_cr = false; line_buf = b.line_buf ++ (c ∷ []) })
        (record b { suppress_lf_after_cr = false })
        (λ room.
          with_line (b.line_buf ++ (c ∷ [])) false b
            (rw (length-append b.line_buf (c ∷ [])) (ground arith)) v)
        (λ full. v)

  on_line_byte-IsValid : (c : ℕ) (b : Bbs C) → IsValid b → IsValid (on_line_byte pf c b)
  unfolding on_line_byte
  on_line_byte-IsValid c b v =
      if-IsValid (c == b'\r') (record (process_input_line pf b) { suppress_lf_after_cr = true })
        (if c == b'\n' then on_lf pf b else on_text pf c b) (λ e. process_input_line-IsValid b v)
        (λ e.
          if-IsValid (c == b'\n') (on_lf pf b) (on_text pf c b) (λ e'. on_lf-IsValid b v)
            (λ e'. on_text-IsValid c b v))

  on_byte-IsValid : (c : ℕ) (b : Bbs C) → IsValid b → IsValid (on_byte pf c b)
  unfolding on_byte
  on_byte-IsValid c b v =
      if-IsValid (is_body b.input_mode && c == 0x1A) (finish_post pf b) (on_line_byte pf c b)
        (λ eof. finish_post-IsValid pf b (at_body b.input_mode (ground arith)) v)
        (λ byte. on_line_byte-IsValid c b v)

  on_bytes-IsValid : (d : Bytes) (b : Bbs C) → IsValid b → IsValid (on_bytes pf d b)
  unfolding on_bytes
  on_bytes-IsValid [] b v = v
  on_bytes-IsValid (c ∷ d) b v =
      on_bytes-IsValid d (if b.stuck then b else on_byte pf c b)
        (if-IsValid b.stuck b (on_byte pf c b) (λ e. v) (λ e. on_byte-IsValid c b v))

  -- A session that starts or ends: no one is the sysop.
  fresh :
      (auth : State) (text : Bytes)
      → auth.mode ≡ idle
      → esp_tnc.Auth.Session.IsValid auth
      → length text < 4096
      → Holds false command auth [] text
  fresh auth text quiet valid fits = record {
    is_login = ground arith;
    privileged = λ p. cc;
    waiting = ground arith;
    auth_valid = valid;
    line_fits = omega arith;
    body_fits = fits;
  }

  pub on_event-IsValid : (e : Event) (b : Bbs C) → IsValid b → IsValid (on_event e b)
  unfolding on_event on_connect on_disconnect on_data terminal_rx_tap send_banner
  on_event-IsValid (connected_to call) b v =
      fresh (reset_session b.sysop_auth) b.pending_body (mode-reset_session b.sysop_auth)
        (reset_session-IsValid b.sysop_auth v.auth_valid) v.body_fits
  on_event-IsValid disconnected b v =
      fresh (reset_session b.sysop_auth) b.pending_body (mode-reset_session b.sysop_auth)
        (reset_session-IsValid b.sysop_auth v.auth_valid) v.body_fits
  on_event-IsValid (received d) b v =
      if-IsValid (not b.connected) b (on_bytes pf d b) (λ e. v) (λ e. on_bytes-IsValid d b v)
  on_event-IsValid (heard_from_tnc d) b v =
      IsValid-session b (terminal_rx_tap pf d b) (ground arith) v

  on_events-IsValid : (es : List Event) (b : Bbs C) → IsValid b → IsValid (on_events es b)
  unfolding on_events
  on_events-IsValid [] b v = v
  on_events-IsValid (e ∷ es) b v = on_events-IsValid es (on_event e b) (on_event-IsValid e b v)

  init-session :
      (cfg : BbsConfig) (c : C) (b : Bbs C)
      → init pf cfg c ≡ (esp_ok, b)
      → (session b ≡ (false, command, configured cfg.sysop_auth, [], [], false))
        × (configure cfg.sysop_auth ≡ (esp_ok, configured cfg.sysop_auth))
  unfolding init blank set_texts open_nvs configure
  init-session cfg c b h = (ground arith, ground arith)

  pub init-IsValid :
      (cfg : BbsConfig) (c : C) (b : Bbs C)
      → cfg.sysop_auth.max_attempts < 256
      → init pf cfg c ≡ (esp_ok, b)
      → IsValid b
  init-IsValid cfg c b byte h =
      let (same, accepted) = init-session cfg c b h in
      let (valid, quiet, _) =
        configure-IsValid cfg.sysop_auth (configured cfg.sysop_auth) byte accepted in
      HoldsIn-same (session b) (false, command, configured cfg.sysop_auth, [], [], false) same
        (fresh (configured cfg.sysop_auth) [] quiet valid (omega arith))

  -- From a session that `bbs_init` set up with a limit of attempts that is a byte, whatever
  -- connects and is received: the user is the sysop exactly when the login is in the state
  -- authenticated; in the configuration and the terminal mode the user is the sysop; a line is
  -- taken for a response exactly when one is awaited; the login's own state is valid; and the line
  -- has at most 255 bytes and the body, for which there is room for Kconfig's default of 4096, at
  -- most 4095.
  pub on_events-safe :
      (cfg : BbsConfig) (c : C) (b : Bbs C) (es : List Event)
      → cfg.sysop_auth.max_attempts < 256
      → init pf cfg c ≡ (esp_ok, b)
      → IsValid (on_events es b)
  on_events-safe cfg c b es byte h = on_events-IsValid es b (init-IsValid cfg c b byte h)
