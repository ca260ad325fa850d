-- ===== src/Bbs.antt =====
-- main/bbs.c and main/bbs.h: the session of the bulletin board.
pub mod Callsign
pub mod Grammar
pub mod Outside
pub mod Sending
pub mod Delivery
pub mod Buffered
pub mod State
pub mod Sysop
pub mod Messages
pub mod Scanning
pub mod Commands
pub mod Lines
pub mod Valid
pub mod Login
pub mod Rights
pub mod Dispatch
pub mod Safety
pub mod Events
pub mod Access
pub mod Connected
pub mod Stream
pub mod Listing
mod Tests
use esp_tnc.Prelude.{
  ℕ, Bool, true, false, not, ◌&&◌, ◌||◌, Option, none, some, List, [], ◌∷◌, Bytes, codes, strlcpy,
  if◌then◌else◌,
}
use esp_tnc.Esp.{EspErr, esp_ok, invalid_arg, is_ok}
use esp_tnc.Files.{Files}
use esp_tnc.Auth.{Config, configure, configured, reset_session}
use esp_tnc.Storage.Index.{Storage}
use esp_tnc.Heard.{Heard}
use Outside.{Platform}
use Callsign.{base_callsign, normalize_full_callsign}
use State.{InputMode, command, terminal, Bbs}
use Messages.{send_banner}

-- `bbs_config_t` with what its pointers lead to; `none` is a NULL text.
pub record BbsConfig : Type 0 where
  pub bbs_callsign : Option Bytes
  pub greeting_text : Option Bytes
  pub prompt_text : Option Bytes
  pub config_prompt_text : Option Bytes
  pub terminal_prompt_text : Option Bytes
  pub sysop_name : Option Bytes
  pub version_text : Option Bytes
  pub nvs_namespace : Option Bytes
  pub sysop_auth : Config
  pub storage : Storage
  pub heard : Heard
  pub files : Files
  pub has_uart_phy : Bool
  pub uart_is_terminal_mode : Bool

abbrev text_or : Option Bytes → Bytes → Bytes
text_or none d = d
text_or (some t) d = t

-- After the memset and the pointers: nothing is set but what the secret's configuration left.
unfoldable pub blank : {C : Type 0} → BbsConfig → C → Bbs C
blank cfg c = record {
  initialized = false;
  connected = false;
  is_sysop = false;
  input_mode = command;
  storage = cfg.storage;
  heard = cfg.heard;
  bbs_callsign = [];
  remote_callsign = [];
  greeting_text = [];
  prompt_text = [];
  config_prompt_text = [];
  terminal_prompt_text = [];
  sysop_name = [];
  version_text = [];
  nvs_namespace = [];
  line_buf = [];
  suppress_lf_after_cr = false;
  pending_to = [];
  pending_flags = 0;
  pending_subject = [];
  pending_body = [];
  sysop_auth = configured cfg.sysop_auth;
  has_nvs = false;
  has_uart_phy = cfg.has_uart_phy;
  uart_is_terminal_mode = cfg.uart_is_terminal_mode;
  files = cfg.files;
  outside = c;
  stuck = false;
}

abbrev is_terminal : InputMode → Bool
is_terminal terminal = true
is_terminal _ = false

module _ {C : Type 0} (pf : Platform C) where
  -- The texts, each cut to its buffer.
  unfoldable pub set_texts : BbsConfig → Bbs C → Bbs C
  set_texts cfg b = record b {
    bbs_callsign = normalize_full_callsign 16 (text_or cfg.bbs_callsign []);
    greeting_text = strlcpy 96 (text_or cfg.greeting_text (codes "Welcome to ESP-TNC BBS"));
    prompt_text = strlcpy 32 (text_or cfg.prompt_text (codes "BBS READY>"));
    config_prompt_text = strlcpy 32 (text_or cfg.config_prompt_text (codes "CONFIG READY>"));
    terminal_prompt_text = strlcpy 32 (text_or cfg.terminal_prompt_text (codes "TERM READY>"));
    sysop_name = strlcpy 32 (text_or cfg.sysop_name (codes "SYSOP"));
    version_text = strlcpy 32 (text_or cfg.version_text (codes "ESP-TNC BBS 0.1"));
    nvs_namespace = strlcpy 16 (text_or cfg.nvs_namespace (codes "bbs"));
  }

  -- The last step: NVS.
  unfoldable pub open_nvs : Bbs C → EspErr × Bbs C
  open_nvs b =
      let (err, c) = pf.nvs_open b.nvs_namespace b.outside in
      if not (is_ok err) then (err, record b { outside = c }) else (
        esp_ok,
        record b { outside = c; has_nvs = true; input_mode = command; initialized = true },
      )

  unfoldable pub init : BbsConfig → C → EspErr × Bbs C
  unfolding blank set_texts open_nvs
  init cfg c =
      if not (is_ok (configure cfg.sysop_auth).0)
      then (invalid_arg, blank cfg c)
      else open_nvs (set_texts cfg (blank cfg c))

  unfoldable pub deinit : Bbs C → Bbs C
  deinit b =
      if not b.initialized
      then b
      else record b { outside = pf.nvs_close b.outside; has_nvs = false; initialized = false }

  -- `call` is what `ax25_address_to_string` makes of the remote address, in 16 bytes.
  unfoldable pub on_connect : Bytes → Bbs C → Bbs C
  on_connect call b = send_banner pf (record b {
    remote_callsign = base_callsign 7 call;
    connected = true;
    is_sysop = false;
    sysop_auth = reset_session b.sysop_auth;
    input_mode = command;
    line_buf = [];
    suppress_lf_after_cr = false;
  })

  unfoldable pub on_disconnect : Bbs C → Bbs C
  on_disconnect b = record b {
    connected = false;
    is_sysop = false;
    sysop_auth = reset_session b.sysop_auth;
    line_buf = [];
    suppress_lf_after_cr = false;
    outside =
        if is_terminal b.input_mode && b.has_uart_phy then pf.clear_rx_tap b.outside else b.outside;
    input_mode = command;
  }
