-- ===== src/Worker/Lights.antt =====
-- main/main.c: what the LEDs show while the worker runs.
use esp_tnc.Prelude.{
  ℕ, ◌≡◌, refl, ◌∙◌, sym, ap, Bool, true, false, not, List, [], ◌∷◌, ◌++◌, ltb, length, pos, arith,
  if◌then◌else◌,
}
use esp_tnc.Bbs.Outside.{Platform}
use esp_tnc.Bbs.State.{Bbs}
use esp_tnc.Bbs.Messages.{has_unread_messages}
use esp_tnc.Bbs.Events.{Event, on_event}
use esp_tnc.Leds.{
  Gpio, AppLeds, led_gpio_is_valid, led_mode_level, led_apply_outputs, led_refresh_pwr_mode,
}
use esp_tnc.Leds.Pins.{led_apply_outputs-keeps, led_apply_outputs-levels}
use esp_tnc.Worker.{
  Worker, queue_send, conn_on_connect, conn_on_disconnect, conn_on_data, led_refresh_bbs_mode,
  led_tick, worker_round,
}
use esp_tnc.Worker.Order.{connect, disconnect, receive, work, tick, Run, start, then_act}

module _ {C : Type 0} (pf : Platform C) (gpio : Gpio) where
  -- What the BBS LED is for: on while a station is connected, else blinking while messages wait.
  abbrev pub lamp : Bbs C → AppLeds → Bool
  lamp b l =
      if b.connected then true else if has_unread_messages pf b then l.blink_phase_on else false

  -- The LED's pin, if it is a valid one, shows it.
  abbrev pub Shows : Bbs C → AppLeds → Type 0
  Shows b l =
      (l.initialized ≡ true)
      × ((n : ℕ)
          → led_gpio_is_valid gpio (pos n) ≡ true
          → l.bbs_pin ≡ pos n
          → l.levels n ≡ lamp b l)

  refreshed :
      (w : Worker C)
      → w.leds.initialized ≡ true
      → Shows w.bbs (led_apply_outputs gpio (led_refresh_bbs_mode pf gpio w).leds)
  unfolding led_refresh_bbs_mode
  refreshed w set_up =
      let l = (led_refresh_bbs_mode pf gpio w).leds in
      let (init_same, _, pin_same, phase_same) = led_apply_outputs-keeps gpio l in
      (
        init_same ∙ set_up,
        λ n valid at.
            (led_apply_outputs-levels gpio l n set_up).0 valid (sym pin_same ∙ at)
            ∙ mode_level
            ∙ ap
                (λ p.
                  if w.bbs.connected
                  then true
                  else if has_unread_messages pf w.bbs
                  then p
                  else false)
                (sym phase_same),
      )
    where
      mode_level :
          led_mode_level
            (led_refresh_bbs_mode pf gpio w).leds
            (led_refresh_bbs_mode pf gpio w).leds.bbs_mode
          ≡ lamp w.bbs (led_refresh_bbs_mode pf gpio w).leds
      mode_level = unfold led_mode_level in ground arith

  sent-Shows :
      (room : ℕ) (e : Event) (w : Worker C)
      → Shows w.bbs w.leds
      → Shows (queue_send room e w).bbs (queue_send room e w).leds
  unfolding queue_send
  sent-Shows room e w s = by_room (ltb (length w.queue) room)
    where
      by_room :
          (c : Bool)
          → Shows
              (if c then record w { queue = w.queue ++ (e ∷ []) } else w).bbs
              (if c then record w { queue = w.queue ++ (e ∷ []) } else w).leds
      by_room true = s
      by_room false = s

  worked-Shows :
      (w : Worker C)
      → Shows w.bbs w.leds
      → Shows (worker_round pf gpio w).bbs (worker_round pf gpio w).leds
  unfolding worker_round led_refresh_bbs_mode
  worked-Shows w s = by_queue w.queue refl
    where
      by_queue :
          (q : List Event)
          → w.queue ≡ q
          → Shows (worker_round pf gpio w).bbs (worker_round pf gpio w).leds
      by_queue [] empty = rw (empty, worker_round) s
      by_queue (e ∷ q) next =
          let w' : Worker C = record w { bbs = on_event pf e w.bbs; queue = q } in
          rw (next, worker_round) (refreshed w' s.0)

  ticked-Shows :
      (safety_timer : Bool) (w : Worker C)
      → Shows w.bbs w.leds
      → Shows (led_tick pf gpio safety_timer w).bbs (led_tick pf gpio safety_timer w).leds
  unfolding led_tick led_refresh_pwr_mode led_refresh_bbs_mode
  ticked-Shows safety_timer w s = by_set_up w.leds.initialized refl
    where
      l : AppLeds
      l = record w.leds { blink_phase_on = not w.leds.blink_phase_on }

      w' : Worker C
      w' = led_refresh_bbs_mode pf gpio (record w { leds = led_refresh_pwr_mode safety_timer l })

      r : Worker C
      r = record w' { leds = led_apply_outputs gpio w'.leds }

      by_set_up :
          (c : Bool)
          → w.leds.initialized ≡ c
          → Shows (if not c then w else r).bbs (if not c then w else r).leds
      by_set_up true e = refreshed (record w { leds = led_refresh_pwr_mode safety_timer l }) s.0
      by_set_up false e = cc (s.0, e)

  -- Once the LEDs are set up and the BBS LED shows the session's state, it does so after whatever
  -- connects, is received and is handled, and after each tick: it is lit while a station is
  -- connected; with none, it is lit in the one phase of the blinking while bbs_has_unread_messages
  -- says that the callsign of the last session has unread ones, and dark otherwise.
  pub Run-Shows :
      {room : ℕ} {s w : Worker C} {taken : List Event}
      → Shows s.bbs s.leds
      → Run pf gpio room s taken w
      → Shows w.bbs w.leds
  unfolding conn_on_connect conn_on_disconnect conn_on_data
  Run-Shows k start = k
  Run-Shows {room} k (then_act {w} (connect remote) r) = sent-Shows room _ w (Run-Shows k r)
  Run-Shows {room} k (then_act {w} disconnect r) = sent-Shows room _ w (Run-Shows k r)
  Run-Shows {room} k (then_act {w} (receive d) r) = sent-Shows room _ w (Run-Shows k r)
  Run-Shows k (then_act {w} work r) = worked-Shows w (Run-Shows k r)
  Run-Shows k (then_act {w} (tick safety_timer) r) = ticked-Shows safety_timer w (Run-Shows k r)
