-- ===== src/Boot/Tests.antt =====
-- The board's start at concrete settings.
use esp_tnc.Prelude.{ℕ, ◌≡◌, refl, Bool, true, false, Option, none, some, [], Bytes, codes, arith}
use esp_tnc.Esp.{esp_ok}
use esp_tnc.Auth.{configure, configured, secret_is_valid, all_printable}
use esp_tnc.Bbs.{init, blank, set_texts, open_nvs, on_connect}
use esp_tnc.Bbs.Commands.{cmd_config, cmd_sysop}
use esp_tnc.Bbs.State.{config}
use esp_tnc.Leds.{led_zeroed, led_apply_outputs}
use esp_tnc.Storage.Index.{index_load, index_save, check_saved, encode_all}
use esp_tnc.Files.{open_read, open_write, write_all}
use esp_tnc.Heard.Store.{load}
use esp_tnc.Bbs.Messages.{has_unread_messages, any_unread, get_last_read}
use esp_tnc.Worker.{Worker, led_refresh_bbs_mode}
use esp_tnc.Worker.Order.{act, work, connect}
use esp_tnc.Boot.{Settings, Startup, auth_config, bbs_sysop_secret_is_valid, boot}
use esp_tnc.Boot.Secret.{configure-startup_secret, invalid_secret_opens}
use esp_tnc.Samples.{link, gpio}

abbrev settings : Bytes → Settings
settings secret = record {
  bbs_callsign = codes "N0CALL-1";
  sysop_secret = secret;
  uart_enable = false;
  uart_terminal_mode = false;
  greeting_text = codes "Hello";
  prompt_text = codes ">";
  config_prompt_text = codes "#";
  terminal_prompt_text = codes "$";
  sysop_name = codes "SYSOP";
  version_text = codes "1";
  partition_label = codes "bbs_data";
  max_messages = 100;
  challenge_timeout_sec = 300;
  session_timeout_sec = 600;
  lockout_sec = 900;
  max_attempts = 3;
  secret_min_len = 16;
  secret_max_len = 256;
}

abbrev startup : Startup
startup = record {
  mount = record { registered = esp_ok; has_dir = true; makes_dir = true };
  has_mutex = true;
  registration = esp_ok;
  loaded_us = 1000000;
  is_address = true;
  has_queue = true;
  has_task = true;
}

configure-startup_secret_example :
    ((configure (auth_config (settings (codes "short")))).0 ≡ esp_ok)
    × (bbs_sysop_secret_is_valid (settings (codes "short")) (codes "short") ≡ true
        → (configure (auth_config (settings (codes "short")))).1.secret ≡ codes "short")
configure-startup_secret_example =
    configure-startup_secret (settings (codes "short")) (omega arith) (omega arith) (omega arith)

is_none : {A : Type 0} → Option A → Bool
is_none none = true
is_none (some a) = false

-- A board that finds no files, and its session.
abbrev board : Option (Worker ℕ)
board = boot link gpio (settings (codes "short")) startup led_zeroed (λ p. none) 0

is_started : is_none board ≡ false
unfolding boot is_none index_load index_save check_saved encode_all open_read open_write write_all
    init configure secret_is_valid all_printable load esp_tnc.Heard.init esp_tnc.Storage.init blank
    set_texts open_nvs led_refresh_bbs_mode has_unread_messages any_unread get_last_read
    led_apply_outputs configured
is_started = refl

some_of : {A : Type 0} (o : Option A) → is_none o ≡ false → (a : A) × (o ≡ some a)
unfolding is_none
some_of none h = cc
some_of (some a) h = (a, refl)

abbrev started : (w : Worker ℕ) × (board ≡ some w)
started = some_of board is_started

-- A station connects, the worker handles that, and a second goes by.
abbrev worked : Worker ℕ
worked = act link gpio 16 work (act link gpio 16 (connect (codes "N7GET")) started.0)

invalid_secret_opens_example :
    ((cmd_sysop link [] (on_connect link (codes "N7GET") started.0.bbs)).is_sysop ≡ true)
    × (link.cfg_is_initialized (on_connect link (codes "N7GET") started.0.bbs).outside ≡ true
        → ((cmd_config link (on_connect link (codes "N7GET") started.0.bbs)).is_sysop ≡ true)
          × ((cmd_config link (on_connect link (codes "N7GET") started.0.bbs)).input_mode ≡ config))
invalid_secret_opens_example =
    invalid_secret_opens link gpio (settings (codes "short")) startup led_zeroed (λ p. none) 0
      started.0 (codes "N7GET") [] (unfold bbs_sysop_secret_is_valid in refl) started.1
