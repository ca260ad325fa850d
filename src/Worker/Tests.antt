-- ===== src/Worker/Tests.antt =====
-- The worker at a concrete run.
use esp_tnc.Prelude.{ℕ, refl, true, [], ◌∷◌, codes, pos}
use esp_tnc.Bbs.Events.{connected_to}
use esp_tnc.Leds.{led_zeroed}
use esp_tnc.Worker.Lights.{Shows, Run-Shows}
use esp_tnc.Bbs.Messages.{has_unread_messages, any_unread, get_last_read}
use esp_tnc.Samples.{link, gpio, idle_bbs}
use esp_tnc.Worker.{Worker, conn_on_connect, conn_on_disconnect, queue_send}
use esp_tnc.Worker.Order.{
  Run, start, then_act, connect, disconnect, work, InOrder, Run-InOrder, act,
}

abbrev begin : Worker ℕ
begin = record { bbs = idle_bbs; queue = []; leds = led_zeroed }

-- With room for one event, the second that comes before the worker runs is dropped.
abbrev one_dropped : Worker ℕ
one_dropped =
    act link gpio 1 work
      (act link gpio 1 disconnect (act link gpio 1 (connect (codes "N7GET")) begin))

Run-taken : Run link gpio 1 begin (connected_to (codes "N7GET") ∷ []) one_dropped
unfolding conn_on_connect conn_on_disconnect queue_send
Run-taken = then_act work (then_act disconnect (then_act (connect (codes "N7GET")) start))

Run-InOrder_example : InOrder link gpio 1 begin (connected_to (codes "N7GET") ∷ []) one_dropped
Run-InOrder_example = Run-InOrder link gpio 1 refl Run-taken

-- The LEDs as they are set up with one pin each, and no station connected.
abbrev lit : Worker ℕ
lit = record begin {
  leds = record led_zeroed { initialized = true; pwr_pin = pos 11; bbs_pin = pos 3 };
}

lit-Shows : Shows link gpio lit.bbs lit.leds
unfolding has_unread_messages any_unread get_last_read
lit-Shows = (refl, λ n valid at. refl)

abbrev handled : Worker ℕ
handled = act link gpio 1 work (act link gpio 1 (connect (codes "N7GET")) lit)

Run-Shows_example : Shows link gpio handled.bbs handled.leds
Run-Shows_example =
    Run-Shows link gpio lit-Shows (then_act work (then_act (connect (codes "N7GET")) start))
