-- ===== src/Agwpe/Sound.antt =====
-- main/main.c: no two AGWPE connections share a slot, and none is reached after it has closed.
use esp_tnc.Prelude.{
  ℕ, suc, ◌≡◌, refl, Bool, true, false, Option, none, some, List, [], ◌∷◌, ◌++◌, Bytes, ◌==◌,
  if◌then◌else◌, update, arith,
}
use esp_tnc.Agwpe.{
  AgwpeSlot, AgwpeServer, AgwpePool, empty_slot, agwpe_on_disconnected, agwpe_cleanup_task,
  agwpe_on_connected, agwpe_on_data, on_agwpe_frame_out,
}

-- The pool, with the connections that are open.
pub record Clients (A : Type 0) : Type 0 where
  pub pool : AgwpePool A
  pub is_open : ℕ → Bool

module _ {F A : Type 0} (sv : AgwpeServer F A) (room : ℕ) where
  -- A new connection, whose data are NULL; it closes; its data come; the AGWPE server has a frame
  -- for a slot; the clean-up task takes a request.
  pub data Act : Type 0 where
    accept : ℕ → Act
    close : ℕ → Act
    receive : ℕ → Bytes → Act
    send : F → ℕ → Act
    clean : Act

  abbrev pub act : Act → Clients A → Clients A
  act (accept c) s = record {
    pool = agwpe_on_connected sv c (record s.pool { conn_data = update s.pool.conn_data c none });
    is_open = update s.is_open c true;
  }
  act (close c) s = record {
    pool = agwpe_on_disconnected room c s.pool;
    is_open = update s.is_open c false;
  }
  act (receive c d) s = record s { pool = agwpe_on_data sv c d s.pool }
  act (send frame i) s = record s { pool = on_agwpe_frame_out sv frame i s.pool }
  act clean s = record s { pool = agwpe_cleanup_task sv s.pool }

  -- The server accepts what is not open, and closes what is.
  abbrev pub Allowed : Act → Clients A → Type 0
  Allowed (accept c) s = s.is_open c ≡ false
  Allowed (close c) s = s.is_open c ≡ true
  Allowed _ s = Unit

  -- A run, with the number of rounds that the clean-up task makes in it.
  pub data Run (s : Clients A) : ℕ → Clients A → Type 0 where
    start : Run s 0 s
    then_act :
        {n : ℕ} {t : Clients A} (a : Act)
        → Allowed a t
        → Run s n t
        → Run s (elim a [ clean ↦ suc n | _ ↦ n ]) (act a t)

-- Whether a request for the slot waits.
abbrev pub queued : ℕ → List (ℕ × ℕ) → Bool
queued i [] = false
queued i ((j, k) ∷ q) = if j == i then true else queued i q

pub queued-append :
    (i j k : ℕ) (q : List (ℕ × ℕ))
    → queued i (q ++ ((j, k) ∷ [])) ≡ (if j == i then true else queued i q)
queued-append i j k [] = refl
queued-append i j k ((j', k') ∷ q) = ground (arith, queued-append i j k q)

abbrev pub Distinct : List (ℕ × ℕ) → Type 0
Distinct [] = Unit
Distinct ((i, k) ∷ q) = (queued i q ≡ false) × Distinct q

Distinct-append :
    (j k : ℕ) (q : List (ℕ × ℕ)) → Distinct q → queued j q ≡ false → Distinct (q ++ ((j, k) ∷ []))
Distinct-append j k [] d new = (refl, tt)
Distinct-append j k ((i, k') ∷ q) d new =
    (ground (arith, queued-append i j k q), Distinct-append j k q d.1 (ground arith))

abbrev pub is_some {ℓ} : {A : Type ℓ} → Option A → Bool
is_some none = false
is_some (some x) = true

-- What holds between the slots, the data of the connections and the queue.
pub record Holds (slots : ℕ → AgwpeSlot) (conn_data : ℕ → Option ℕ) (queue : List (ℕ × ℕ))
    (is_open : ℕ → Bool) : Type 0 where
  -- The slot of a connection is in use, is its own, and has a client.
  pub mine :
      (c i : ℕ)
      → conn_data c ≡ some i
      → ((slots i).in_use ≡ true)
        × ((slots i).conn ≡ some c)
        × ((slots i).cleanup_pending ≡ false)
        × (is_some (slots i).client ≡ true)
        × (is_open c ≡ true)
  -- A slot sends to the connection that has it, and to no other.
  pub own : (i c : ℕ) → (slots i).conn ≡ some c → conn_data c ≡ some i
  -- A slot whose clean-up is asked for stays in use, and sends to no one; it is asked for once.
  pub waiting :
      (i : ℕ)
      → queued i queue ≡ true
      → ((slots i).in_use ≡ true) × ((slots i).conn ≡ none) × ((slots i).cleanup_pending ≡ true)
  pub pending : (i : ℕ) → (slots i).cleanup_pending ≡ true → queued i queue ≡ true
  pub distinct : Distinct queue

abbrev pub IsSound : {A : Type 0} → Clients A → Type 0
IsSound s = Holds s.pool.slots s.pool.conn_data s.pool.queue s.is_open

module _ (slots : ℕ → AgwpeSlot) (conn_data : ℕ → Option ℕ) (queue : List (ℕ × ℕ))
    (is_open : ℕ → Bool) (v : Holds slots conn_data queue is_open) where
  -- A new connection that gets no slot.
  pub turned_away :
      (c : ℕ)
      → is_open c ≡ false
      → Holds slots (update conn_data c none) queue (update is_open c true)
  turned_away c shut = record {
    mine = λ d i h. ground (arith, v.mine d i);
    own = λ i d h. ground (arith, v.own i d, v.mine d i);
    waiting = v.waiting;
    pending = v.pending;
    distinct = v.distinct;
  }

  -- A slot that is not in use is cleared.
  pub cleared :
      (i : ℕ) → (slots i).in_use ≡ false → Holds (update slots i empty_slot) conn_data queue is_open
  cleared i free = record {
    mine = λ d j h. ground (arith, v.mine d j);
    own = λ j d h. ground (arith, v.own j d);
    waiting = λ j h. ground (arith, v.waiting j);
    pending = λ j h. ground (arith, v.pending j);
    distinct = v.distinct;
  }

  -- A new connection gets a slot that is not in use.
  pub given :
      (c i k : ℕ)
      → is_open c ≡ false
      → (slots i).in_use ≡ false
      → Holds
          (update slots i
            (record { in_use = true; conn = some c; client = some k; cleanup_pending = false }))
          (update conn_data c (some i))
          queue
          (update is_open c true)
  given c i k shut free = record {
    mine = λ d j h. ground (arith, v.mine d j, v.mine c j);
    own = λ j d h. ground (arith, v.own j d, v.mine d j);
    waiting = λ j h. ground (arith, v.waiting j);
    pending = λ j h. ground (arith, v.pending j);
    distinct = v.distinct;
  }

  -- A connection that has no slot closes.
  pub left : (c : ℕ) → conn_data c ≡ none → Holds slots conn_data queue (update is_open c false)
  left c nothing = record {
    mine = λ d j h. ground (arith, v.mine d j);
    own = v.own;
    waiting = v.waiting;
    pending = v.pending;
    distinct = v.distinct;
  }

  -- One that has a slot closes: the slot waits to be cleaned up, or is left as it is.
  pub asked :
      (c i k : ℕ)
      → conn_data c ≡ some i
      → Holds
          (update slots i (record (slots i) { conn = none; cleanup_pending = true }))
          (update conn_data c none)
          (queue ++ ((i, k) ∷ []))
          (update is_open c false)
  asked c i k had = record {
    mine = λ d j h. ground (arith, v.mine d j, v.mine c i);
    own = λ j d h. ground (arith, v.own j d, v.mine c i);
    waiting = λ j h. ground (arith, v.waiting j, queued-append j i k queue, v.mine c i);
    pending = λ j h. ground (arith, v.pending j, queued-append j i k queue);
    distinct = Distinct-append i k queue v.distinct (ground (arith, v.mine c i, v.waiting i));
  }

  pub kept :
      (c i : ℕ)
      → conn_data c ≡ some i
      → Holds
          (update slots i (record (slots i) { conn = none; cleanup_pending = false }))
          (update conn_data c none)
          queue
          (update is_open c false)
  kept c i had = record {
    mine = λ d j h. ground (arith, v.mine d j, v.mine c i);
    own = λ j d h. ground (arith, v.own j d, v.mine c i);
    waiting = λ j h. ground (arith, v.waiting j, v.mine c i);
    pending = λ j h. ground (arith, v.pending j);
    distinct = v.distinct;
  }

-- The task cleans a slot up.
pub cleaned :
    (slots : ℕ → AgwpeSlot) (conn_data : ℕ → Option ℕ) (i k : ℕ) (q : List (ℕ × ℕ))
    (is_open : ℕ → Bool)
    → Holds slots conn_data ((i, k) ∷ q) is_open
    → Holds (update slots i empty_slot) conn_data q is_open
cleaned slots conn_data i k q is_open v = record {
  mine = λ d j h. ground (arith, v.mine d j, v.waiting i);
  own = λ j d h. ground (arith, v.own j d);
  waiting = λ j h. ground (arith, v.waiting j, v.distinct.0);
  pending = λ j h. ground (arith, v.pending j);
  distinct = v.distinct.1;
}
