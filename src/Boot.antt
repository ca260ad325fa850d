-- ===== src/Boot.antt =====
-- main/main.c: what app_main sets up for the bulletin board, and its housekeeping.
pub mod Secret
pub mod Running
mod Tests
use esp_tnc.Prelude.{
  ℕ, suc, ◌*◌, ◌%◌, Bool, true, false, not, ◌&&◌, ◌||◌, Option, none, some, List, [], ◌∷◌, Bytes,
  codes, ltb, ◌==◌, if◌then◌else◌, length, u32_mod,
}
use esp_tnc.Esp.{EspErr, is_ok}
use esp_tnc.Files.{Files}
use esp_tnc.Auth.{Config, all_printable}
use esp_tnc.Storage.{Mount}
use esp_tnc.Storage.Index.{Storage}
use esp_tnc.Heard.{Heard, set_filter_callsign}
use esp_tnc.Heard.Store.{load, persist}
use esp_tnc.Bbs.{BbsConfig, init}
use esp_tnc.Bbs.Outside.{Platform}
use esp_tnc.Bbs.State.{Bbs}
use esp_tnc.Leds.{Gpio, AppLeds, led_apply_outputs}
use esp_tnc.Worker.{Worker, led_refresh_bbs_mode, led_tick}

-- The build's settings, CONFIG_BBS_*, and those that app_main reads from ax25_config.
pub record Settings : Type 0 where
  pub bbs_callsign : Bytes
  pub sysop_secret : Bytes
  pub uart_enable : Bool
  pub uart_terminal_mode : Bool  -- strcmp(uart_type, "term") == 0
  pub greeting_text : Bytes
  pub prompt_text : Bytes
  pub config_prompt_text : Bytes
  pub terminal_prompt_text : Bytes
  pub sysop_name : Bytes
  pub version_text : Bytes
  pub partition_label : Bytes
  pub max_messages : ℕ
  pub challenge_timeout_sec : ℕ
  pub session_timeout_sec : ℕ
  pub lockout_sec : ℕ
  pub max_attempts : ℕ
  pub secret_min_len : ℕ
  pub secret_max_len : ℕ

-- What the calls outside the repository come to while the board starts.
pub record Startup : Type 0 where
  pub mount : Mount
  pub has_mutex : Bool
  pub registration : EspErr
  pub loaded_us : ℕ  -- esp_timer_get_time when the heard list is loaded
  pub is_address : Bool  -- ax25_address_from_string(bbs_callsign) == ESP_OK
  pub has_queue : Bool
  pub has_task : Bool

unfoldable pub bbs_sysop_secret_is_valid : Settings → Bytes → Bool
bbs_sysop_secret_is_valid st secret =
    if length secret == 0
    then true
    else if ltb (length secret) st.secret_min_len || ltb st.secret_max_len (length secret)
    then false
    else all_printable secret

-- The secret that the session gets: an invalid one is replaced by the empty one.
unfoldable pub startup_secret : Settings → Bytes
unfolding bbs_sysop_secret_is_valid
startup_secret st =
    if not (bbs_sysop_secret_is_valid st st.sysop_secret) then [] else st.sysop_secret

-- A number of seconds `* 1000U`.
abbrev millis : ℕ → ℕ
millis sec = sec * 1000 % u32_mod

unfoldable pub auth_config : Settings → Config
unfolding startup_secret
auth_config st = record {
  secret = some (startup_secret st);
  challenge_timeout_ms = millis st.challenge_timeout_sec;
  session_timeout_ms = millis st.session_timeout_sec;
  lockout_ms = millis st.lockout_sec;
  max_attempts = st.max_attempts;
  secret_min_len = st.secret_min_len;
  secret_max_len = st.secret_max_len;
}

unfoldable pub bbs_config : Settings → Storage → Heard → Files → BbsConfig
unfolding auth_config
bbs_config st storage heard files = record {
  bbs_callsign = some st.bbs_callsign;
  greeting_text = some st.greeting_text;
  prompt_text = some st.prompt_text;
  config_prompt_text = some st.config_prompt_text;
  terminal_prompt_text = some st.terminal_prompt_text;
  sysop_name = some st.sysop_name;
  version_text = some st.version_text;
  nvs_namespace = some (codes "bbs");
  sysop_auth = auth_config st;
  storage = storage;
  heard = heard;
  files = files;
  has_uart_phy = st.uart_enable;
  uart_is_terminal_mode = st.uart_enable && st.uart_terminal_mode;
}

module _ {C : Type 0} (pf : Platform C) (gpio : Gpio) where
  -- The session, its LED, the queue and the worker. `none`: app_main returns or aborts.
  unfoldable pub start_worker : Startup → BbsConfig → AppLeds → C → Option (Worker C)
  start_worker up cfg leds c =
      let (err, bbs) = init pf cfg c in
      if not (is_ok err)
      then none
      else let w : Worker C =
          led_refresh_bbs_mode pf gpio (record { bbs = bbs; queue = []; leds = leds }) in
        if not up.has_queue || not up.has_task
        then none
        else some (record w { leds = led_apply_outputs gpio w.leds })

  -- The heard list, which may be missing on flash or unreadable.
  unfoldable pub start_heard :
      Settings → Startup → Storage → Files → AppLeds → C → Option (Worker C)
  unfolding start_worker bbs_config
  start_heard st up storage files leds c =
      let (err, heard) = esp_tnc.Heard.init up.has_mutex up.registration in
      if not (is_ok err)
      then none
      else let heard' =
          set_filter_callsign (some st.bbs_callsign) (load pf.io files up.loaded_us heard).1 in
        if not up.is_address
        then none
        else start_worker up (bbs_config st storage heard' files) leds c

  -- app_main from `bbs_storage_init` on, to the start of the worker; the LEDs are set up by then.
  unfoldable pub boot : Settings → Startup → AppLeds → Files → C → Option (Worker C)
  unfolding start_heard
  boot st up leds files c =
      let (err, storage, files') =
        esp_tnc.Storage.init pf.io files up.mount (some st.partition_label) st.max_messages in
      if not (is_ok err) then none else start_heard st up storage files' leds c

  -- One round of the loop of app_main, each second, with the ticks since the heard list was saved.
  unfoldable pub housekeeping : Bool → ℕ × Worker C → ℕ × Worker C
  housekeeping safety_timer (ticks, w) =
      let w' = led_tick pf gpio safety_timer w in
      if ltb (suc ticks) 30
      then (suc ticks, w')
      else let (err, heard, files) =
          persist pf.io w'.bbs.files (pf.timer_us w'.bbs.outside) false w'.bbs.heard in
        (0, record w' { bbs = record w'.bbs { heard = heard; files = files } })
