-- ===== src/Agwpe/Cleanup.antt =====
-- main/main.c: the clean-up that a closed AGWPE connection asks for is done, and what becomes of a
-- slot where the queue had no room for it.
use esp_tnc.Prelude.{
  ℕ, suc, ◌-◌, ◌<◌, ◌≤◌, ◌≡◌, refl, ◌∙◌, sym, ap, true, none, some, List, [], ◌∷◌, ◌++◌, ltb,
  length, update, update_self, arith, inl, inr, Bool-cases, Option-cases, append_assoc, append-nil,
}
use esp_tnc.Slots.{first_free}
use esp_tnc.Agwpe.{
  AddResult, added, refused, AgwpeServer, AgwpePool, empty_slot, put_slot, agwpe_on_disconnected,
  agwpe_cleanup_task, settle_client, agwpe_on_connected, free_agwpe_client_slot, release_slot,
}
use esp_tnc.Agwpe.Sound.{
  Clients, accept, close, receive, send, clean, act, Run, start, then_act, IsSound,
}
use esp_tnc.Agwpe.Sharing.{
  agwpe_on_data-same, on_agwpe_frame_out-same, connected-none, connected-some, disconnected-asked,
}

-- The request for a slot, with so many ahead of it.
pub record Waiting (n i k : ℕ) (queue : List (ℕ × ℕ)) : Type 0 where
  pub ahead : List (ℕ × ℕ)
  pub behind : List (ℕ × ℕ)
  pub split : queue ≡ ahead ++ ((i, k) ∷ behind)
  pub count : length ahead ≡ n

later :
    (n i k : ℕ) (queue extra : List (ℕ × ℕ)) → Waiting n i k queue → Waiting n i k (queue ++ extra)
later n i k queue extra w = record {
  ahead = w.ahead;
  behind = w.behind ++ extra;
  split = ap (λ q. q ++ extra) w.split ∙ append_assoc w.ahead ((i, k) ∷ w.behind) extra;
  count = w.count;
}

asked-Waiting :
    (i k : ℕ) (queue : List (ℕ × ℕ)) → Waiting (length queue) i k (queue ++ ((i, k) ∷ []))
asked-Waiting i k queue = record { ahead = queue; behind = []; split = refl; count = refl }

module _ {F A : Type 0} (sv : AgwpeServer F A) (room : ℕ) where
  connected-queue : (c : ℕ) (p : AgwpePool A) → (agwpe_on_connected sv c p).queue ≡ p.queue
  connected-queue c p = elim (Option-cases (first_free (λ j. (p.slots j).in_use) p.max_clients 0)) [
    | inl full ↦ ap (λ (q : AgwpePool A). q.queue) (connected-none sv c p full)
    | inr (i, found) ↦
        ap (λ (q : AgwpePool A). q.queue) (connected-some sv c i p found)
        ∙ settled (sv.add_client i p.server) (put_slot i (record empty_slot { in_use = true }) p) i
  ]
    where
      settled :
          (r : AddResult A) (q : AgwpePool A) (i : ℕ) → (settle_client sv c i r q).queue ≡ q.queue
      settled (added k a) q i = unfold settle_client in refl
      settled (refused err a) q i = unfold settle_client in unfold free_agwpe_client_slot in refl

  abbrev Grown : List (ℕ × ℕ) → List (ℕ × ℕ) → Type 0
  Grown q q' = (extra : List (ℕ × ℕ)) × (q' ≡ q ++ extra)

  unchanged : (q q' : List (ℕ × ℕ)) → q' ≡ q → Grown q q'
  unchanged q q' e = ([], e ∙ sym (append-nil q))

  release-queue : (i : ℕ) (p : AgwpePool A) → Grown p.queue (release_slot room i p).queue
  unfolding release_slot free_agwpe_client_slot
  release-queue i p = elim (Option-cases (p.slots i).client) [
    | inl nothing ↦ unchanged p.queue _ (rw (nothing, release_slot) refl)
    | inr (k, client) ↦ elim (Bool-cases (p.slots i).cleanup_pending) [
      | inl pending ↦ unchanged p.queue (release_slot room i p).queue (ground arith)
      | inr calm ↦ elim (Bool-cases (ltb (length p.queue) room)) [
        | inl free ↦ ((i, k) ∷ [], ground arith)
        | inr full ↦ unchanged p.queue (release_slot room i p).queue (ground arith)
      ]
    ]
  ]

  disconnected-queue :
      (c : ℕ) (p : AgwpePool A) → Grown p.queue (agwpe_on_disconnected room c p).queue
  unfolding agwpe_on_disconnected
  disconnected-queue c p = elim (Option-cases (p.conn_data c)) [
    | inl nothing ↦ rw (nothing, agwpe_on_disconnected) (unchanged p.queue p.queue refl)
    | inr (i, at) ↦
        rw (at, agwpe_on_disconnected)
          (release-queue i (record p {
            conn_data = update p.conn_data c none;
            slots = update p.slots i (record (p.slots i) { conn = none });
          }))
  ]

  first_cleaned :
      (n i k : ℕ) (p : AgwpePool A)
      → Waiting (suc n) i k p.queue
      → Waiting n i k (agwpe_cleanup_task sv p).queue
  unfolding agwpe_cleanup_task free_agwpe_client_slot
  first_cleaned n i k p w = by_ahead w.ahead w.split w.count
    where
      by_ahead :
          (q : List (ℕ × ℕ))
          → p.queue ≡ q ++ ((i, k) ∷ w.behind)
          → length q ≡ suc n
          → Waiting n i k (agwpe_cleanup_task sv p).queue
      by_ahead [] e h = absurd (omega arith)
      by_ahead ((j, l) ∷ q) e h =
          rw (e, agwpe_cleanup_task)
            (record { ahead = q; behind = w.behind; split = refl; count = omega arith })

  this_cleaned :
      (i k : ℕ) (p : AgwpePool A)
      → Waiting 0 i k p.queue
      → ((agwpe_cleanup_task sv p).slots i ≡ empty_slot)
        × ((agwpe_cleanup_task sv p).server ≡ sv.remove_client k p.server)
  unfolding agwpe_cleanup_task free_agwpe_client_slot
  this_cleaned i k p w = by_ahead w.ahead w.split w.count
    where
      by_ahead :
          (q : List (ℕ × ℕ))
          → p.queue ≡ q ++ ((i, k) ∷ w.behind)
          → length q ≡ 0
          → ((agwpe_cleanup_task sv p).slots i ≡ empty_slot)
            × ((agwpe_cleanup_task sv p).server ≡ sv.remove_client k p.server)
      by_ahead [] e h = rw (e, agwpe_cleanup_task) (update_self p.slots i empty_slot, refl)
      by_ahead ((j, l) ∷ q) e h = absurd (omega arith)

  Run-Waiting :
      {s : Clients A} {n : ℕ} {t : Clients A} (m i k : ℕ)
      → n ≤ m
      → Waiting m i k s.pool.queue
      → Run sv room s n t
      → Waiting (m - n) i k t.pool.queue
  Run-Waiting m i k le w start = rw (zero_less m) w
    where
      zero_less : (m : ℕ) → m - 0 ≡ m
      zero_less m = omega arith
  Run-Waiting m i k le w (then_act {t} (accept c) ok r) =
      rw (connected-queue c (record t.pool { conn_data = update t.pool.conn_data c none }))
        (Run-Waiting m i k le w r)
  Run-Waiting {n} m i k le w (then_act {t} (close c) ok r) =
      let (extra, e) = disconnected-queue c t.pool in
      rw e (later (m - n) i k t.pool.queue extra (Run-Waiting m i k le w r))
  Run-Waiting m i k le w (then_act {t} (receive c d) ok r) =
      rw ((agwpe_on_data-same sv c d t.pool).2) (Run-Waiting m i k le w r)
  Run-Waiting m i k le w (then_act {t} (send frame j) ok r) =
      rw ((on_agwpe_frame_out-same sv frame j t.pool).2) (Run-Waiting m i k le w r)
  Run-Waiting m i k le w (then_act {n} {t} clean ok r) = first_cleaned (m - suc n) i k t.pool (
      let e : m - n ≡ suc (m - suc n) = omega arith in
      rw e at (Run-Waiting m i k (omega (arith, le)) w r))

  -- In a sound pool, an AGWPE connection with a client closes while the queue has room. However
  -- many requests are ahead of it, and whatever connects, closes and is sent meanwhile: once the
  -- clean-up task has made so many rounds, its next one removes that client from the AGWPE server,
  -- and leaves the slot empty, so that it can be given out again.
  pub closed_is_cleaned :
      (c i k : ℕ) (s : Clients A) (t : Clients A)
      → IsSound s
      → s.pool.conn_data c ≡ some i
      → (s.pool.slots i).client ≡ some k
      → length s.pool.queue < room
      → Run sv room (act sv room (close c) s) (length s.pool.queue) t
      → ((agwpe_cleanup_task sv t.pool).slots i ≡ empty_slot)
        × ((agwpe_cleanup_task sv t.pool).server ≡ sv.remove_client k t.pool.server)
  closed_is_cleaned c i k s t v at client free r =
      let asked = disconnected-asked room c i k s.pool at client (v.mine c i at).2 (ground arith) in
      let w : Waiting (length s.pool.queue) i k (agwpe_on_disconnected room c s.pool).queue =
        rw asked (asked-Waiting i k s.pool.queue) in
      let none_left : length s.pool.queue - length s.pool.queue ≡ 0 = omega arith in
      this_cleaned i k t.pool
        (rw none_left at (Run-Waiting (length s.pool.queue) i k (omega arith) w r))
