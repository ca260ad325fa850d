-- ===== src/Boot/Running.antt =====
-- main/main.c: the board from its start on.
use esp_tnc.Prelude.{ℕ, ◌<◌, ◌≤◌, ◌≡◌, Bool, false, not, some, [], Bytes, length, arith}
use esp_tnc.Esp.{EspErr, esp_ok, is_ok}
use esp_tnc.Files.{Files}
use esp_tnc.Storage.Index.{Storage}
use esp_tnc.Heard.{Heard, set_filter_callsign}
use esp_tnc.Heard.Store.{load}
use esp_tnc.Bbs.{init}
use esp_tnc.Bbs.Outside.{Platform}
use esp_tnc.Bbs.Valid.{IsValid}
use esp_tnc.Bbs.Events.{heard_from_tnc, on_event}
use esp_tnc.Leds.{Gpio, AppLeds}
use esp_tnc.Worker.{Worker, led_refresh_bbs_mode}
use esp_tnc.Worker.Order.{Act, act}
use esp_tnc.Boot.{Settings, Startup, bbs_config, start_worker, start_heard, boot, housekeeping}

module _ {C : Type 0} (pf : Platform C) (gpio : Gpio) where
  -- What a board that has started rests on.
  pub record Booted (st : Settings) (c : C) (w : Worker C) : Type 0 where
    pub storage : Storage
    pub heard : Heard
    pub files : Files
    pub set_up : init pf (bbs_config st storage heard files) c ≡ (esp_ok, w.bbs)
    pub quiet : w.queue ≡ []

  ok_of : (e : EspErr) → not (is_ok e) ≡ false → e ≡ esp_ok
  ok_of e h = ground arith

  start_worker-Booted :
      (st : Settings) (up : Startup) (storage : Storage) (heard : Heard) (files : Files)
      (leds : AppLeds) (c : C) (w : Worker C)
      → start_worker pf gpio up (bbs_config st storage heard files) leds c ≡ some w
      → Booted st c w
  unfolding start_worker led_refresh_bbs_mode
  start_worker-Booted st up storage heard files leds c w h =
      let tried = init pf (bbs_config st storage heard files) c in
      let ok : tried.0 ≡ esp_ok = ground (arith, ok_of tried.0) in
      record {
        storage = storage;
        heard = heard;
        files = files;
        set_up = ground (arith, ok);
        quiet = ground arith;
      }

  pub boot-Booted :
      (st : Settings) (up : Startup) (leds : AppLeds) (files : Files) (c : C) (w : Worker C)
      → boot pf gpio st up leds files c ≡ some w
      → Booted st c w
  unfolding boot start_heard
  boot-Booted st up leds files c w h =
      let (err, storage, files') =
        esp_tnc.Storage.init pf.io files up.mount (some st.partition_label) st.max_messages in
      let heard =
        set_filter_callsign (some st.bbs_callsign)
          (load pf.io files' up.loaded_us (esp_tnc.Heard.init up.has_mutex up.registration).1).1 in
      start_worker-Booted st up storage heard files' leds c w (ground arith)

  -- What happens to a board that has started as `s`, with the rounds of the housekeeping since the
  -- last one that called bbs_heard_persist: the connection's callbacks and the worker, the TNC in
  -- the terminal mode, and each second a round of the housekeeping.
  pub data Life (room : ℕ) (s : Worker C) : ℕ → Worker C → Type 0 where
    started : Life room s 0 s
    acted :
        {n : ℕ} {w : Worker C} (a : Act pf gpio room)
        → Life room s n w
        → Life room s n (act pf gpio room a w)
    tapped :
        {n : ℕ} {w : Worker C} (d : Bytes)
        → Life room s n w
        → Life room s n (record w { bbs = on_event pf (heard_from_tnc d) w.bbs })
    kept_house :
        {n : ℕ} {w : Worker C} (safety_timer : Bool)
        → Life room s n w
        → Life room s
            (housekeeping pf gpio safety_timer (n, w)).0
            (housekeeping pf gpio safety_timer (n, w)).1

  -- The session is valid, no more events wait than there is room for, and bbs_heard_persist is
  -- called in time.
  abbrev pub IsSafe : ℕ → ℕ → Worker C → Type 0
  IsSafe room n w = IsValid w.bbs × (length w.queue ≤ room) × (n < 30)
