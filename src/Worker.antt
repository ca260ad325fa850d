-- ===== src/Worker.antt =====
-- main/main.c: the callbacks of the AX.25 connection and `bbs_worker_task`, with the BBS's LED.
pub mod Order
pub mod Lights
mod Tests
use esp_tnc.Prelude.{
  ℕ, Bool, true, false, List, [], ◌∷◌, ◌++◌, Bytes, ltb, if◌then◌else◌, length, take, not,
}
use esp_tnc.Bbs.Outside.{Platform}
use esp_tnc.Bbs.State.{Bbs}
use esp_tnc.Bbs.Messages.{has_unread_messages}
use esp_tnc.Leds.{
  Gpio, AppLeds, LedMode, led_off, led_on, led_blink, led_apply_outputs, led_refresh_pwr_mode,
}
use esp_tnc.Bbs.Events.{Event, connected_to, disconnected, received, on_event}

-- `bbs_app_ctx_t`, as far as the worker uses it, and the LEDs.
pub record Worker (C : Type 0) : Type 0 where
  pub bbs : Bbs C
  pub queue : List Event  -- evt_queue, the event that is next first
  pub leds : AppLeds

module _ {C : Type 0} where
  -- xQueueSend with no wait, to a queue of `room` events: one that finds it full is dropped.
  unfoldable pub queue_send : ℕ → Event → Worker C → Worker C
  queue_send room e w =
      if ltb (length w.queue) room then record w { queue = w.queue ++ (e ∷ []) } else w

  -- The remote address, as the text that the session makes of it.
  unfoldable pub conn_on_connect : ℕ → Bytes → Worker C → Worker C
  unfolding queue_send
  conn_on_connect room remote w = queue_send room (connected_to remote) w

  unfoldable pub conn_on_disconnect : ℕ → Worker C → Worker C
  unfolding queue_send
  conn_on_disconnect room w = queue_send room disconnected w

  -- What does not fit an event is cut off.
  unfoldable pub conn_on_data : Platform C → ℕ → Bytes → Worker C → Worker C
  unfolding queue_send
  conn_on_data pf room d w =
      queue_send room
        (received (take (if ltb pf.max_info (length d) then pf.max_info else length d) d)) w

module _ {C : Type 0} (pf : Platform C) (gpio : Gpio) where
  unfoldable pub led_refresh_bbs_mode : Worker C → Worker C
  led_refresh_bbs_mode w = record w {
    leds = record w.leds {
      bbs_mode =
          if w.bbs.connected
          then led_on
          else if has_unread_messages pf w.bbs
          then led_blink
          else led_off;
    };
  }

  unfoldable pub led_tick : Bool → Worker C → Worker C
  unfolding led_refresh_bbs_mode led_apply_outputs led_refresh_pwr_mode
  led_tick safety_timer w =
      if not w.leds.initialized
      then w
      else let l : AppLeds = record w.leds { blink_phase_on = not w.leds.blink_phase_on } in
        let w' : Worker C =
          led_refresh_bbs_mode (record w { leds = led_refresh_pwr_mode safety_timer l }) in
        record w' { leds = led_apply_outputs gpio w'.leds }

  -- One round of `bbs_worker_task`; with nothing in the queue it waits.
  unfoldable pub worker_round : Worker C → Worker C
  unfolding led_refresh_bbs_mode led_apply_outputs
  worker_round w = elim w.queue [
    | [] ↦ w
    | e ∷ q ↦
        (let w' : Worker C =
            led_refresh_bbs_mode (record w { bbs = on_event pf e w.bbs; queue = q }) in
          record w' { leds = led_apply_outputs gpio w'.leds })
  ]
