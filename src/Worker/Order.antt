-- ===== src/Worker/Order.antt =====
-- main/main.c: the worker handles the events that the queue took, in their order.
use esp_tnc.Prelude.{
  ℕ, ◌≤◌, ◌≡◌, refl, ◌∙◌, sym, ap, Bool, true, false, List, [], ◌∷◌, ◌++◌, Bytes, ltb,
  if◌then◌else◌, length, length-append, take, append-nil, append_assoc, arith, inl, inr, Bool-cases,
}
use esp_tnc.Bbs.Outside.{Platform}
use esp_tnc.Bbs.State.{Bbs}
use esp_tnc.Bbs.Events.{Event, connected_to, disconnected, received, on_event, on_events}
use esp_tnc.Leds.{Gpio}
use esp_tnc.Worker.{
  Worker, queue_send, conn_on_connect, conn_on_disconnect, conn_on_data, led_refresh_bbs_mode,
  led_tick, worker_round,
}

module _ {C : Type 0} (pf : Platform C) (gpio : Gpio) (room : ℕ) where
  -- What the connection and the scheduler do, and each second the housekeeping of `app_main`.
  pub data Act : Type 0 where
    connect : Bytes → Act
    disconnect : Act
    receive : Bytes → Act
    work : Act
    tick : Bool → Act

  abbrev pub act : Act → Worker C → Worker C
  act (connect remote) w = conn_on_connect room remote w
  act disconnect w = conn_on_disconnect room w
  act (receive d) w = conn_on_data pf room d w
  act work w = worker_round pf gpio w
  act (tick safety_timer) w = led_tick pf gpio safety_timer w

  -- The event that an act brings, if it brings one.
  abbrev pub brings : Act → List Event
  brings (connect remote) = connected_to remote ∷ []
  brings disconnect = disconnected ∷ []
  brings (receive d) =
      received (take (if ltb pf.max_info (length d) then pf.max_info else length d) d) ∷ []
  brings work = []
  brings (tick safety_timer) = []

  -- A run of acts from `s`, with the events that the queue took: one comes while there is room.
  pub data Run (s : Worker C) : List Event → Worker C → Type 0 where
    start : Run s [] s
    then_act :
        {taken : List Event} {w : Worker C} (a : Act)
        → Run s taken w
        → Run s (taken ++ (if ltb (length w.queue) room then brings a else [])) (act a w)

  -- Of the events taken, those handled and those that wait.
  pub record InOrder (s : Worker C) (taken : List Event) (w : Worker C) : Type 0 where
    pub handled : List Event
    pub split : taken ≡ handled ++ w.queue
    pub result : w.bbs ≡ on_events pf handled s.bbs
    pub bounded : length w.queue ≤ room

  on_events-append :
      (es fs : List Event) (b : Bbs C)
      → on_events pf (es ++ fs) b ≡ on_events pf fs (on_events pf es b)
  unfolding on_events
  on_events-append [] fs b = refl
  on_events-append (e ∷ es) fs b = on_events-append es fs (on_event pf e b)

  sent :
      (s : Worker C) (taken : List Event) (w : Worker C) (e : Event)
      → InOrder s taken w
      → InOrder s
          (taken ++ (if ltb (length w.queue) room then e ∷ [] else []))
          (queue_send room e w)
  unfolding queue_send
  sent s taken w e k = elim (Bool-cases (ltb (length w.queue) room)) [
    | inl free ↦
        rw (free, queue_send)
          (record {
            handled = k.handled;
            split = ap (λ l. l ++ (e ∷ [])) k.split ∙ append_assoc k.handled w.queue (e ∷ []);
            result = k.result;
            bounded = rw (length-append w.queue (e ∷ [])) (ground arith);
          })
    | inr full ↦
        rw (full, queue_send)
          (record {
            handled = k.handled;
            split = append-nil taken ∙ k.split;
            result = k.result;
            bounded = k.bounded;
          })
  ]

  led_refresh-queue :
      (w : Worker C)
      → ((led_refresh_bbs_mode pf gpio w).queue ≡ w.queue)
        × ((led_refresh_bbs_mode pf gpio w).bbs ≡ w.bbs)
  unfolding led_refresh_bbs_mode
  led_refresh-queue w = (ground arith, ground arith)

  worked :
      (s : Worker C) (taken : List Event) (w : Worker C)
      → InOrder s taken w
      → InOrder s taken (worker_round pf gpio w)
  unfolding worker_round on_events on_event
  worked s taken w k = by_queue w.queue refl
    where
      by_queue : (q : List Event) → w.queue ≡ q → InOrder s taken (worker_round pf gpio w)
      by_queue [] empty = rw (empty, worker_round) k
      by_queue (e ∷ q) next =
          let w' : Worker C = record w { bbs = on_event pf e w.bbs; queue = q } in
          let (queue_same, bbs_same) = led_refresh-queue w' in
          rw (next, worker_round)
            (record {
              handled = k.handled ++ (e ∷ []);
              split =
                  k.split
                  ∙ ap (λ l. k.handled ++ l) next
                  ∙ sym (append_assoc k.handled (e ∷ []) q)
                  ∙ ap (λ l. (k.handled ++ (e ∷ [])) ++ l) (sym queue_same);
              result =
                  bbs_same
                  ∙ ap (λ b. on_event pf e b) k.result
                  ∙ sym (on_events-append k.handled (e ∷ []) s.bbs);
              bounded = rw queue_same (omega (arith, k.bounded, ap (λ l. length l) next));
            })

  ticked :
      (s : Worker C) (taken : List Event) (w : Worker C) (safety_timer : Bool)
      → InOrder s taken w
      → InOrder s taken (led_tick pf gpio safety_timer w)
  unfolding led_tick led_refresh_bbs_mode
  ticked s taken w safety_timer k = record {
    handled = k.handled;
    split = k.split ∙ ground arith;
    result = ground (arith, k.result);
    bounded = ground (arith, k.bounded);
  }

  nothing_brought : (taken : List Event) (c : Bool) → taken ++ (if c then [] else []) ≡ taken
  nothing_brought taken true = append-nil taken
  nothing_brought taken false = append-nil taken

  -- From an empty queue, whatever comes and whenever the worker runs: the session is what the
  -- events handled make of it, in the order they came; with those that wait they are all that the
  -- queue took, and no more wait than it has room for.
  pub Run-InOrder :
      {s w : Worker C} {taken : List Event} → s.queue ≡ [] → Run s taken w → InOrder s taken w
  unfolding conn_on_connect conn_on_disconnect conn_on_data on_events
  Run-InOrder {s} empty start = record {
    handled = [];
    split = sym empty;
    result = refl;
    bounded = rw empty (omega arith);
  }
  Run-InOrder {s} empty (then_act {taken} {w} (connect remote) r) =
      sent s taken w _ (Run-InOrder empty r)
  Run-InOrder {s} empty (then_act {taken} {w} disconnect r) = sent s taken w _ (Run-InOrder empty r)
  Run-InOrder {s} empty (then_act {taken} {w} (receive d) r) =
      sent s taken w _ (Run-InOrder empty r)
  Run-InOrder {s} empty (then_act {taken} {w} work r) =
      rw (nothing_brought taken (ltb (length w.queue) room))
        (worked s taken w (Run-InOrder empty r))
  Run-InOrder {s} empty (then_act {taken} {w} (tick safety_timer) r) =
      rw (nothing_brought taken (ltb (length w.queue) room))
        (ticked s taken w safety_timer (Run-InOrder empty r))
