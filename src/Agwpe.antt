-- ===== src/Agwpe.antt =====
-- main/main.c: the pool of AGWPE clients and the task that removes them. A connection of the TCP
-- server and a client of the AGWPE server are their numbers.
pub mod Sound
pub mod Sharing
pub mod Cleanup
pub mod Lost
mod Tests
use esp_tnc.Prelude.{
  ℕ, zero, suc, Bool, true, false, Option, none, some, List, [], ◌∷◌, ◌++◌, Bytes, is_empty, ltb,
  length, if◌then◌else◌, update,
}
use esp_tnc.Esp.{EspErr}
use esp_tnc.Slots.{first_free}

-- `agwpe_client_slot_t`; `none` is NULL. The decoder's state is the library's.
pub record AgwpeSlot : Type 0 where
  pub in_use : Bool
  pub conn : Option ℕ
  pub client : Option ℕ
  pub cleanup_pending : Bool

-- What `ax25_agwpe_server_add_client` came to.
pub data AddResult (A : Type 0) : Type 0 where
  added : ℕ → A → AddResult A
  refused : EspErr → A → AddResult A

-- The AGWPE server, the decoders and the TCP server, over the state `A` of all, for frames `F`.
pub record AgwpeServer (F A : Type 0) : Type 0 where
  pub add_client : ℕ → A → AddResult A
  pub remove_client : ℕ → A → A
  pub agwpe_in : ℕ → F → A → A  -- ax25_agwpe_server_client_agwpe_in
  pub ax25_out : ℕ → F → A → A  -- ax25_agwpe_server_client_ax25_out
  pub encode : F → Bytes  -- agwpe_frame_encode; no bytes where it fails
  pub conn_send : ℕ → Bytes → A → A  -- ax25_phy_tcp_server_conn_send
  pub decode : ℕ → Bytes → A → List F × A  -- the frames that the slot's decoder completes

-- `conn_data` is the user data of each connection; the queue holds slot and client.
pub record AgwpePool (A : Type 0) : Type 0 where
  pub max_clients : ℕ
  pub slots : ℕ → AgwpeSlot
  pub conn_data : ℕ → Option ℕ
  pub queue : List (ℕ × ℕ)  -- s_agwpe_cleanup_queue, the request that is next first
  pub server : A

-- After a memset.
abbrev pub empty_slot : AgwpeSlot
empty_slot = record { in_use = false; conn = none; client = none; cleanup_pending = false }

module _ {A : Type 0} where
  abbrev pub put_slot : ℕ → AgwpeSlot → AgwpePool A → AgwpePool A
  put_slot i s p = record p { slots = update p.slots i s }

  unfoldable pub alloc_agwpe_client_slot : AgwpePool A → Option ℕ × AgwpePool A
  alloc_agwpe_client_slot p =
      let found = first_free (λ i. (p.slots i).in_use) p.max_clients 0 in
      (found, elim found [ none ↦ p | some i ↦ put_slot i (record empty_slot { in_use = true }) p ])

  unfoldable pub free_agwpe_client_slot : ℕ → AgwpePool A → AgwpePool A
  free_agwpe_client_slot i p = put_slot i empty_slot p

  -- The slot of a connection that is gone, its `conn` NULL already: without a client it is free at
  -- once; else its clean-up is asked for, in a queue that has room for so many requests.
  unfoldable pub release_slot : ℕ → ℕ → AgwpePool A → AgwpePool A
  unfolding free_agwpe_client_slot
  release_slot room i p = elim (p.slots i).client [
    | none ↦ free_agwpe_client_slot i p
    | some k ↦
        if (p.slots i).cleanup_pending
        then p
        else if ltb (length p.queue) room
        then record (put_slot i (record (p.slots i) { cleanup_pending = true }) p) {
          queue = p.queue ++ ((i, k) ∷ []);
        }
        else put_slot i (record (p.slots i) { cleanup_pending = false }) p
  ]

  unfoldable pub agwpe_on_disconnected : ℕ → ℕ → AgwpePool A → AgwpePool A
  unfolding release_slot
  agwpe_on_disconnected room c p = elim (p.conn_data c) [
    | none ↦ p
    | some i ↦ release_slot room i (record p {
      conn_data = update p.conn_data c none;
      slots = update p.slots i (record (p.slots i) { conn = none });
    })
  ]

module _ {F A : Type 0} (sv : AgwpeServer F A) where
  -- One round of the task; with nothing in the queue it waits.
  unfoldable pub agwpe_cleanup_task : AgwpePool A → AgwpePool A
  unfolding free_agwpe_client_slot
  agwpe_cleanup_task p = elim p.queue [
    | [] ↦ p
    | (i, k) ∷ q ↦
        free_agwpe_client_slot i (record p { queue = q; server = sv.remove_client k p.server })
  ]

  unfoldable pub on_agwpe_frame_out : F → ℕ → AgwpePool A → AgwpePool A
  on_agwpe_frame_out frame i p = elim (p.slots i).conn [
    | none ↦ p
    | some c ↦
        if is_empty (sv.encode frame)
        then p
        else record p { server = sv.conn_send c (sv.encode frame) p.server }
  ]

  unfoldable pub on_agwpe_frame_in : F → ℕ → AgwpePool A → AgwpePool A
  on_agwpe_frame_in frame i p = elim (p.slots i).client [
    | none ↦ p
    | some k ↦ record p { server = sv.agwpe_in k frame p.server }
  ]

  -- The client of the slot is made: if that fails, the slot is free again.
  unfoldable pub settle_client : ℕ → ℕ → AddResult A → AgwpePool A → AgwpePool A
  unfolding free_agwpe_client_slot
  settle_client c i (added k a) p = record p {
    slots = update p.slots i (record (p.slots i) { conn = some c; client = some k });
    conn_data = update p.conn_data c (some i);
    server = a;
  }
  settle_client c i (refused err a) p = free_agwpe_client_slot i (record p { server = a })

  unfoldable pub agwpe_on_connected : ℕ → AgwpePool A → AgwpePool A
  unfolding alloc_agwpe_client_slot settle_client
  agwpe_on_connected c p =
      let (found, p') = alloc_agwpe_client_slot p in
      elim found [ none ↦ p' | some i ↦ settle_client c i (sv.add_client i p'.server) p' ]

  -- The decoder calls `on_agwpe_frame_in` for each frame it completes.
  unfoldable pub frames_in : List F → ℕ → AgwpePool A → AgwpePool A
  unfolding on_agwpe_frame_in
  frames_in [] i p = p
  frames_in (f ∷ fs) i p = frames_in fs i (on_agwpe_frame_in f i p)

  unfoldable pub decode_data : ℕ → Bytes → AgwpePool A → AgwpePool A
  unfolding frames_in
  decode_data i d p =
      let (frames, a) = sv.decode i d p.server in frames_in frames i (record p { server = a })

  unfoldable pub agwpe_on_data : ℕ → Bytes → AgwpePool A → AgwpePool A
  unfolding decode_data
  agwpe_on_data c d p = elim (p.conn_data c) [
    | none ↦ p
    | some i ↦ (elim (p.slots i).client [ none ↦ p | some k ↦ decode_data i d p ])
  ]

  -- The loop of `uart_port_frame_cb` over the slots, from the one at `i` on.
  unfoldable pub notify_clients : F → ℕ → ℕ → AgwpePool A → A
  notify_clients frame zero i p = p.server
  notify_clients frame (suc left) i p =
      let p' : AgwpePool A = elim (p.slots i).client [
        | none ↦ p
        | some k ↦
            if (p.slots i).in_use then record p { server = sv.ax25_out k frame p.server } else p
      ] in
      notify_clients frame left (suc i) p'
