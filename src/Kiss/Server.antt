-- ===== src/Kiss/Server.antt =====
-- main/main.c: the KISS server around the pool, the steps of its tasks, and what is always so.
use esp_tnc.Prelude.{
  ℕ, ◌<◌, ◌≡◌, Bool, true, false, Option, none, some, ◌==◌, ◌&&◌, if◌then◌else◌, update, arith, inl,
  inr, Option-cases,
}
use esp_tnc.Esp.{is_ok}
use esp_tnc.Slots.{Table}
use esp_tnc.Kiss.{
  PortMode, Router, KissPool, kiss_take_slot, kiss_attach, kiss_on_disconnected, kiss_on_frame,
  kiss_port_frame_cb,
}

-- What the code relies on in the router: a port that it accepted is registered until it is removed,
-- and sending changes no registration.
pub record Registers {F R : Type 0} (rt : Router F R) : Type 0 where
  pub has : R → ℕ → Bool
  pub registered :
      (i : ℕ) (m : PortMode) (r : R) (j : ℕ)
      → has (rt.register_port i m r).1 j
        ≡ (if i == j && is_ok (rt.register_port i m r).0 then true else has r j)
  pub removed :
      (i : ℕ) (r : R) (j : ℕ) → has (rt.remove_port i r) j ≡ (if i == j then false else has r j)
  pub routed : (frame : F) (i : ℕ) (r : R) (j : ℕ) → has (rt.router_send frame i r) j ≡ has r j
  pub sent : (conn : ℕ) (frame : F) (r : R) (j : ℕ) → has (rt.conn_send conn frame r) j ≡ has r j

-- The pool, with what the server keeps: the connections that are open, and the slot that a call of
-- `kiss_on_connected` under way has taken for its connection.
pub record Server (R : Type 0) : Type 0 where
  pub pool : KissPool R
  pub is_open : ℕ → Bool
  pub taking : ℕ → Option ℕ

module _ {F R : Type 0} (rt : Router F R) where
  abbrev pub accepted : ℕ → Server R → Server R
  accepted c s =
      let (found, p) =
        kiss_take_slot rt (record s.pool { conn_data = update s.pool.conn_data c none }) in
      record { pool = p; is_open = update s.is_open c true; taking = update s.taking c found }

  -- The steps of the server's tasks: a new connection, whose data are NULL, takes a slot; its port
  -- is set up; it closes; frames pass.
  pub data Step (s : Server R) : Server R → Type 0 where
    accept : (c : ℕ) → s.is_open c ≡ false → Step s (accepted c s)
    attach :
        (c i : ℕ) (is_promiscuous : Bool)
        → s.taking c ≡ some i
        → Step s (record s {
          pool = kiss_attach rt is_promiscuous c i s.pool;
          taking = update s.taking c none;
        })
    close :
        (c : ℕ)
        → s.is_open c ≡ true
        → s.taking c ≡ none
        → Step s (record s {
          pool = kiss_on_disconnected rt c s.pool;
          is_open = update s.is_open c false;
        })
    from_client : (c : ℕ) (frame : F) → Step s (record s { pool = kiss_on_frame rt c frame s.pool })
    to_client :
        (i : ℕ) (frame : F) → Step s (record s { pool = kiss_port_frame_cb rt i frame s.pool })

  pub data Reach (s : Server R) : Server R → Type 0 where
    here : Reach s s
    next : {t u : Server R} → Reach s t → Step t u → Reach s u

module _ {R : Type 0} where
  -- The slot that is set up for a connection, and the one that is its own already.
  abbrev pub attached : Server R → ℕ → Option ℕ
  attached s c = if s.is_open c then s.pool.conn_data c else none

  abbrev pub held : Server R → ℕ → Option ℕ
  held s c = elim (s.taking c) [ some i ↦ some i | none ↦ attached s c ]

module _ {F R : Type 0} (rt : Router F R) (laws : Registers rt) where
  pub record IsSound (s : Server R) : Type 0 where
    -- Each slot in use is one connection's.
    pub table : Table (held s) (λ i. (s.pool.slots i).in_use)
    pub below : (i : ℕ) → (s.pool.slots i).in_use ≡ true → i < s.pool.max_clients
    -- The port of a connection is registered, and sends to it; no other port is registered.
    pub port :
        (c i : ℕ)
        → attached s c ≡ some i
        → (laws.has s.pool.router i ≡ true) × ((s.pool.slots i).user_data ≡ c)
    pub no_other : (i : ℕ) → laws.has s.pool.router i ≡ true → (c : ℕ) × (attached s c ≡ some i)
    -- A call under way has not set its connection's data yet.
    pub waits : (c i : ℕ) → s.taking c ≡ some i → (s.is_open c ≡ true) × (s.pool.conn_data c ≡ none)
    pub closed : (c : ℕ) → s.is_open c ≡ false → s.taking c ≡ none

  pub attached-held :
      (s : Server R) (c i : ℕ) → IsSound s → attached s c ≡ some i → held s c ≡ some i
  attached-held s c i v h = elim (Option-cases (s.taking c)) [
    | inl idle ↦ rw (idle, held) h
    | inr (j, busy) ↦ absurd (ground (arith, v.waits c j busy))
  ]
