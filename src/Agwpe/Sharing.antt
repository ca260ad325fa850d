-- ===== src/Agwpe/Sharing.antt =====
-- main/main.c: each callback keeps the AGWPE pool sound.
use esp_tnc.Prelude.{
  ℕ, ◌≡◌, refl, ◌∙◌, ap, Bool, true, false, none, some, List, [], ◌∷◌, ◌++◌, Bytes, ltb, length,
  update, update_self, update-update, arith, inl, inr, Bool-cases, Option-cases,
}
use esp_tnc.Slots.{first_free, first_free-some}
use esp_tnc.Agwpe.{
  AgwpeSlot, AddResult, added, refused, AgwpeServer, AgwpePool, empty_slot, put_slot,
  alloc_agwpe_client_slot, free_agwpe_client_slot, release_slot, agwpe_on_disconnected,
  agwpe_cleanup_task, settle_client, agwpe_on_connected, frames_in, decode_data, agwpe_on_data,
  on_agwpe_frame_in, on_agwpe_frame_out,
}
use esp_tnc.Agwpe.Sound.{
  Clients, accept, close, receive, send, clean, Run, start, then_act, Holds, IsSound, turned_away,
  cleared, given, left, asked, kept, cleaned,
}

abbrev pub SamePool : {A : Type 0} → AgwpePool A → AgwpePool A → Type 0
SamePool p q = (p.slots ≡ q.slots) × (p.conn_data ≡ q.conn_data) × (p.queue ≡ q.queue)

module _ {A : Type 0} (room i k : ℕ) (q : AgwpePool A) (client : (q.slots i).client ≡ some k)
    (calm : (q.slots i).cleanup_pending ≡ false) where
  release-asked :
      ltb (length q.queue) room ≡ true
      → release_slot room i q
        ≡ record (put_slot i (record (q.slots i) { cleanup_pending = true }) q) {
          queue = q.queue ++ ((i, k) ∷ []);
        }
  unfolding release_slot
  release-asked free = ground arith

  release-kept :
      ltb (length q.queue) room ≡ false
      → release_slot room i q ≡ put_slot i (record (q.slots i) { cleanup_pending = false }) q
  unfolding release_slot
  release-kept full = ground arith

module _ {A : Type 0} (room c i k : ℕ) (p : AgwpePool A) (at : p.conn_data c ≡ some i)
    (client : (p.slots i).client ≡ some k) (calm : (p.slots i).cleanup_pending ≡ false) where
  -- With the connection's data and its slot's `conn` cleared.
  abbrev parted : AgwpePool A
  parted = record p {
    conn_data = update p.conn_data c none;
    slots = update p.slots i (record (p.slots i) { conn = none });
  }

  here : (parted.slots i) ≡ record (p.slots i) { conn = none }
  here = update_self p.slots i (record (p.slots i) { conn = none })

  marked :
      (b : Bool)
      → update parted.slots i (record (parted.slots i) { cleanup_pending = b })
        ≡ update p.slots i (record (p.slots i) { conn = none; cleanup_pending = b })
  marked b =
      ap (λ (x : AgwpeSlot). update parted.slots i (record x { cleanup_pending = b })) here
      ∙ update-update p.slots i (record (p.slots i) { conn = none })
          (record (p.slots i) { conn = none; cleanup_pending = b })

  to_release : agwpe_on_disconnected room c p ≡ release_slot room i parted
  unfolding agwpe_on_disconnected
  to_release = rw (at, agwpe_on_disconnected) refl

  pub disconnected-asked :
      ltb (length p.queue) room ≡ true
      → agwpe_on_disconnected room c p ≡ record p {
        conn_data = update p.conn_data c none;
        slots = update p.slots i (record (p.slots i) { conn = none; cleanup_pending = true });
        queue = p.queue ++ ((i, k) ∷ []);
      }
  disconnected-asked free =
      to_release
      ∙ release-asked room i k parted (ap (λ (x : AgwpeSlot). x.client) here ∙ client)
          (ap (λ (x : AgwpeSlot). x.cleanup_pending) here ∙ calm) free
      ∙ ap
          (λ t. record p {
            conn_data = update p.conn_data c none;
            slots = t;
            queue = p.queue ++ ((i, k) ∷ []);
          })
          (marked true)

  pub disconnected-kept :
      ltb (length p.queue) room ≡ false
      → agwpe_on_disconnected room c p ≡ record p {
        conn_data = update p.conn_data c none;
        slots = update p.slots i (record (p.slots i) { conn = none; cleanup_pending = false });
      }
  disconnected-kept full =
      to_release
      ∙ release-kept room i k parted (ap (λ (x : AgwpeSlot). x.client) here ∙ client)
          (ap (λ (x : AgwpeSlot). x.cleanup_pending) here ∙ calm) full
      ∙ ap (λ t. record p { conn_data = update p.conn_data c none; slots = t }) (marked false)

module _ {F A : Type 0} (sv : AgwpeServer F A) where
  frames_in-same : (fs : List F) (i : ℕ) (p : AgwpePool A) → SamePool (frames_in sv fs i p) p
  unfolding frames_in on_agwpe_frame_in
  frames_in-same [] i p = (refl, refl, refl)
  frames_in-same (f ∷ fs) i p =
      let (s, d, q) = frames_in-same fs i (on_agwpe_frame_in sv f i p) in
      (s ∙ ground arith, d ∙ ground arith, q ∙ ground arith)

  pub agwpe_on_data-same :
      (c : ℕ) (d : Bytes) (p : AgwpePool A) → SamePool (agwpe_on_data sv c d p) p
  unfolding agwpe_on_data decode_data
  agwpe_on_data-same c d p = elim (Option-cases (p.conn_data c)) [
    | inl nothing ↦ rw (nothing, agwpe_on_data) (refl, refl, refl)
    | inr (i, at) ↦ elim (Option-cases (p.slots i).client) [
      | inl nothing ↦ rw (at, agwpe_on_data) (rw (nothing, agwpe_on_data) (refl, refl, refl))
      | inr (k, client) ↦
          (let (frames, a) = sv.decode i d p.server in
            rw (at, agwpe_on_data)
              (rw (client, agwpe_on_data) (frames_in-same frames i (record p { server = a }))))
    ]
  ]

  pub on_agwpe_frame_out-same :
      (frame : F) (i : ℕ) (p : AgwpePool A) → SamePool (on_agwpe_frame_out sv frame i p) p
  unfolding on_agwpe_frame_out
  on_agwpe_frame_out-same frame i p = (ground arith, ground arith, ground arith)

  same-IsSound :
      (p q : AgwpePool A) (is_open : ℕ → Bool)
      → SamePool p q
      → Holds q.slots q.conn_data q.queue is_open
      → Holds p.slots p.conn_data p.queue is_open
  same-IsSound p q is_open (s, d, e) v = rw (s, d, e) v

  pub connected-none :
      (c : ℕ) (p : AgwpePool A)
      → first_free (λ i. (p.slots i).in_use) p.max_clients 0 ≡ none
      → agwpe_on_connected sv c p ≡ p
  unfolding agwpe_on_connected alloc_agwpe_client_slot
  connected-none c p h = rw (h, agwpe_on_connected) (rw (h, alloc_agwpe_client_slot) refl)

  pub connected-some :
      (c i : ℕ) (p : AgwpePool A)
      → first_free (λ j. (p.slots j).in_use) p.max_clients 0 ≡ some i
      → agwpe_on_connected sv c p
        ≡ settle_client sv c i
            (sv.add_client i p.server)
            (put_slot i (record empty_slot { in_use = true }) p)
  unfolding agwpe_on_connected alloc_agwpe_client_slot
  connected-some c i p h = rw (h, agwpe_on_connected) (rw (h, alloc_agwpe_client_slot) refl)

  settled :
      (c i : ℕ) (r : AddResult A) (s : Clients A)
      → s.is_open c ≡ false
      → (s.pool.slots i).in_use ≡ false
      → IsSound s
      → (let p = settle_client sv c i r (
            put_slot i
              (record empty_slot { in_use = true })
              (record s.pool { conn_data = update s.pool.conn_data c none })) in
          Holds p.slots p.conn_data p.queue (update s.is_open c true))
  unfolding settle_client free_agwpe_client_slot
  settled c i (added k a) s shut free v =
      let taken : AgwpeSlot = record empty_slot { in_use = true } in
      rw
        (
          update-update s.pool.slots i taken,
          update_self s.pool.slots i taken,
          update-update s.pool.conn_data c none (some i),
        )
        (given s.pool.slots s.pool.conn_data s.pool.queue s.is_open v c i k shut free)
  settled c i (refused err a) s shut free v =
      let v' = turned_away s.pool.slots s.pool.conn_data s.pool.queue s.is_open v c shut in
      rw (update-update s.pool.slots i (record empty_slot { in_use = true }) empty_slot) (
        cleared s.pool.slots (update s.pool.conn_data c none) s.pool.queue (update s.is_open c true)
          v' i free)

  accept-IsSound :
      (c : ℕ) (s : Clients A)
      → s.is_open c ≡ false
      → IsSound s
      → (let p =
            agwpe_on_connected sv c
              (record s.pool { conn_data = update s.pool.conn_data c none }) in
          Holds p.slots p.conn_data p.queue (update s.is_open c true))
  accept-IsSound c s shut v =
      let p : AgwpePool A = record s.pool { conn_data = update s.pool.conn_data c none } in
      elim (Option-cases (first_free (λ j. (p.slots j).in_use) p.max_clients 0)) [
        | inl full ↦
            rw (connected-none c p full)
              (turned_away s.pool.slots s.pool.conn_data s.pool.queue s.is_open v c shut)
        | inr (i, found) ↦ rw (connected-some c i p found) (
            settled c i (sv.add_client i p.server) s shut
              (first_free-some (λ j. (p.slots j).in_use) p.max_clients 0 i found).0 v)
      ]

  module _ (room : ℕ) where
    close-IsSound :
        (c : ℕ) (s : Clients A)
        → s.is_open c ≡ true
        → IsSound s
        → (let p = agwpe_on_disconnected room c s.pool in
            Holds p.slots p.conn_data p.queue (update s.is_open c false))
    unfolding agwpe_on_disconnected release_slot
    close-IsSound c s live v = elim (Option-cases (s.pool.conn_data c)) [
      | inl nothing ↦ rw (nothing, agwpe_on_disconnected) (left _ _ _ _ v c nothing)
      | inr (i, at) ↦ elim (Option-cases (s.pool.slots i).client) [
        | inl nothing ↦ absurd (ground (arith, v.mine c i at))
        | inr (k, client) ↦
            (let calm = (v.mine c i at).2 in
              elim (Bool-cases (ltb (length s.pool.queue) room)) [
                | inl free ↦
                    rw (disconnected-asked room c i k s.pool at client calm free)
                      (asked s.pool.slots s.pool.conn_data s.pool.queue s.is_open v c i k at)
                | inr full ↦
                    rw (disconnected-kept room c i k s.pool at client calm full)
                      (kept s.pool.slots s.pool.conn_data s.pool.queue s.is_open v c i at)
              ])
      ]
    ]

    clean-IsSound :
        (s : Clients A)
        → IsSound s
        → (let p = agwpe_cleanup_task sv s.pool in Holds p.slots p.conn_data p.queue s.is_open)
    unfolding agwpe_cleanup_task free_agwpe_client_slot
    clean-IsSound s v = by_queue s.pool.queue refl
      where
        by_queue :
            (q : List (ℕ × ℕ))
            → s.pool.queue ≡ q
            → (let p = agwpe_cleanup_task sv s.pool in Holds p.slots p.conn_data p.queue s.is_open)
        by_queue [] empty = rw (empty, agwpe_cleanup_task) v
        by_queue ((i, k) ∷ q) next =
            rw (next, agwpe_cleanup_task)
              (cleaned s.pool.slots s.pool.conn_data i k q s.is_open (rw next at v))

    -- From a sound pool, such as an empty one, whatever connects and closes, whatever comes in and
    -- goes out, and whenever the clean-up task runs: the slot of each connection that has one is in
    -- use and has a client; what is sent for a slot goes to the connection that has it, which is
    -- open, and to no other; and a slot waits for its clean-up exactly when that is pending, is
    -- asked for once, stays in use till then, and sends to no one.
    pub Run-IsSound : {s t : Clients A} {n : ℕ} → IsSound s → Run sv room s n t → IsSound t
    Run-IsSound v start = v
    Run-IsSound v (then_act {t} (accept c) ok r) = accept-IsSound c t ok (Run-IsSound v r)
    Run-IsSound v (then_act {t} (close c) ok r) = close-IsSound c t ok (Run-IsSound v r)
    Run-IsSound v (then_act {t} (receive c d) ok r) =
        same-IsSound (agwpe_on_data sv c d t.pool) t.pool t.is_open (agwpe_on_data-same c d t.pool)
          (Run-IsSound v r)
    Run-IsSound v (then_act {t} (send frame i) ok r) =
        same-IsSound (on_agwpe_frame_out sv frame i t.pool) t.pool t.is_open
          (on_agwpe_frame_out-same frame i t.pool) (Run-IsSound v r)
    Run-IsSound v (then_act {t} clean ok r) = clean-IsSound t (Run-IsSound v r)
