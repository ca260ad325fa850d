-- ===== src/Bbs/State.antt =====
-- main/bbs.c and main/bbs.h: the state of the session, the prompt and what is sent for it.
use esp_tnc.Prelude.{ℕ, Bool, List, [], ◌∷◌, Bytes}
use esp_tnc.Auth.{State}
use esp_tnc.Storage.Index.{Storage}
use esp_tnc.Heard.{Heard}
use esp_tnc.Files.{Files}
use esp_tnc.Bbs.Outside.{Platform}
use esp_tnc.Bbs.Sending.{cr, send_bytes, send_buffered}

-- `bbs_input_mode_t`
pub data InputMode : Type 0 where
  command subject body sysop_response config terminal : InputMode

-- `bbs_t`, with what its pointers lead to. The texts are C strings; `line_buf` and `pending_body`
-- are the bytes up to their lengths.
pub record Bbs (C : Type 0) : Type 0 where
  pub initialized : Bool
  pub connected : Bool
  pub is_sysop : Bool
  pub input_mode : InputMode
  pub storage : Storage
  pub heard : Heard
  pub bbs_callsign : Bytes
  pub remote_callsign : Bytes
  pub greeting_text : Bytes
  pub prompt_text : Bytes
  pub config_prompt_text : Bytes
  pub terminal_prompt_text : Bytes
  pub sysop_name : Bytes
  pub version_text : Bytes
  pub nvs_namespace : Bytes
  pub line_buf : Bytes
  pub suppress_lf_after_cr : Bool
  pub pending_to : Bytes
  pub pending_flags : ℕ
  pub pending_subject : Bytes
  pub pending_body : Bytes
  pub sysop_auth : State
  pub has_nvs : Bool
  pub has_uart_phy : Bool
  pub uart_is_terminal_mode : Bool
  pub files : Files  -- what the storage keeps on flash
  pub outside : C  -- the connection and the other things outside this repository
  pub stuck : Bool  -- the search for a challenge has not ended with the random numbers at hand

module _ {C : Type 0} where
  unfoldable pub get_prompt_text : Bbs C → Bytes
  get_prompt_text b = elim b.input_mode [
    | config ↦ b.config_prompt_text
    | terminal ↦ b.terminal_prompt_text
    | _ ↦ b.prompt_text
  ]

  module _ (pf : Platform C) where
    abbrev pub send_text : Bytes → Bbs C → Bbs C
    send_text t b = record b { outside = send_bytes pf t b.outside }

    -- A transmit buffer filled with these texts and flushed.
    abbrev pub send_texts : List Bytes → Bbs C → Bbs C
    send_texts ts b = record b { outside = send_buffered pf ts b.outside }

    abbrev pub send_prompt : Bbs C → Bbs C
    send_prompt b = send_texts (get_prompt_text b ∷ cr ∷ []) b
