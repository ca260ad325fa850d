-- ===== src/Kiss/Opening.antt =====
-- main/main.c: `kiss_on_connected` keeps the pool sound.
use esp_tnc.Prelude.{
  ℕ, ◌<◌, ◌≡◌, refl, ◌∙◌, sym, Bool, true, false, Option, none, some, ◌==◌, if◌then◌else◌, update,
  arith, inl, inr, Bool-cases, Option-cases,
}
use esp_tnc.Esp.{is_ok}
use esp_tnc.Slots.{first_free, first_free-some, taken-Table, freed-Table, same-Table}
use esp_tnc.Kiss.{
  promiscuous, dynamic, KissSlot, Router, KissPool, kiss_take_slot, kiss_attach, set_in_use,
}
use esp_tnc.Kiss.Server.{Registers, Server, accepted, held, IsSound, attached-held}

module _ {F R : Type 0} (rt : Router F R) (laws : Registers rt) where
  -- The pool before the connection, with no data for it.
  abbrev cleared : ℕ → KissPool R → KissPool R
  cleared c p = record p { conn_data = update p.conn_data c none }

  abbrev free_slot : KissPool R → Option ℕ
  free_slot p = first_free (λ i. (p.slots i).in_use) p.max_clients 0

  opened_full :
      (c : ℕ) (s : Server R)
      → s.is_open c ≡ false
      → IsSound rt laws s
      → IsSound rt laws (record {
        pool = cleared c s.pool;
        is_open = update s.is_open c true;
        taking = update s.taking c none;
      })
  opened_full c s shut v = record {
    table =
        same-Table (held s) _ (λ i. (s.pool.slots i).in_use) (λ i. (s.pool.slots i).in_use)
          (λ d. ground (arith, v.closed c shut)) (λ i. refl) v.table;
    below = v.below;
    port = λ d i h. (ground (arith, v.port d i), ground (arith, v.port d i));
    no_other = λ i h. let (d, at) = v.no_other i h in (d, ground arith);
    waits = λ d i h. (ground (arith, v.waits d i), ground (arith, v.waits d i));
    closed = λ d h. ground (arith, v.closed d);
  }

  opened :
      (c i : ℕ) (s : Server R)
      → s.is_open c ≡ false
      → (s.pool.slots i).in_use ≡ false
      → i < s.pool.max_clients
      → IsSound rt laws s
      → IsSound rt laws (record {
        pool = record (cleared c s.pool) {
          slots = update s.pool.slots i (set_in_use true (s.pool.slots i));
        };
        is_open = update s.is_open c true;
        taking = update s.taking c (some i);
      })
  opened c i s shut free low v = record {
    table =
        same-Table (update (held s) c (some i)) _ (update (λ j. (s.pool.slots j).in_use) i true) _
          (λ d. ground arith) (λ j. ground arith)
          (taken-Table (held s) (λ j. (s.pool.slots j).in_use) c i v.table
            (ground (arith, v.closed c shut)) free);
    below = λ j h. ground (arith, v.below j);
    port = λ d j h. (ground (arith, v.port d j), ground (arith, v.port d j, v.port c j));
    no_other = λ j h. let (d, at) = v.no_other j h in (d, ground arith);
    waits = λ d j h. (ground (arith, v.waits d j), ground (arith, v.waits d j));
    closed = λ d h. ground (arith, v.closed d);
  }

  pub accepted-IsSound :
      (c : ℕ) (s : Server R)
      → s.is_open c ≡ false
      → IsSound rt laws s
      → IsSound rt laws (accepted rt c s)
  unfolding kiss_take_slot
  accepted-IsSound c s shut v = elim (Option-cases (free_slot s.pool)) [
    | inl full ↦ rw (full, kiss_take_slot) (opened_full c s shut v)
    | inr (i, found) ↦
        (let (free, low) =
            first_free-some (λ j. (s.pool.slots j).in_use) s.pool.max_clients 0 i found in
          rw (found, kiss_take_slot) (opened c i s shut free (omega (arith, low)) v))
  ]

  -- Only the router's state changes, and no registration.
  pub routed-IsSound :
      (s : Server R) (r : R)
      → ((j : ℕ) → laws.has r j ≡ laws.has s.pool.router j)
      → IsSound rt laws s
      → IsSound rt laws (record s { pool = record s.pool { router = r } })
  routed-IsSound s r same v = record {
    table = v.table;
    below = v.below;
    port = λ c i h. (same i ∙ (v.port c i h).0, (v.port c i h).1);
    no_other = λ i h. v.no_other i (sym (same i) ∙ h);
    waits = v.waits;
    closed = v.closed;
  }

  attached-IsSound :
      (c i : ℕ) (slot : KissSlot) (r : R) (s : Server R)
      → s.taking c ≡ some i
      → slot.in_use ≡ true
      → slot.user_data ≡ c
      → ((j : ℕ) → laws.has r j ≡ (if i == j then true else laws.has s.pool.router j))
      → IsSound rt laws s
      → IsSound rt laws (record {
        pool = record s.pool {
          slots = update s.pool.slots i slot;
          conn_data = update s.pool.conn_data c (some i);
          router = r;
        };
        is_open = s.is_open;
        taking = update s.taking c none;
      })
  attached-IsSound c i slot r s mine used conn reg v =
      let (live, unset) = v.waits c i mine in
      let now_used : (s.pool.slots i).in_use ≡ true = v.table.used c i (ground arith) in
      record {
        table =
            same-Table (held s) _ (λ j. (s.pool.slots j).in_use) _ (λ d. ground arith)
              (λ j. ground arith) v.table;
        below = λ j h. ground (arith, v.below j, v.below i);
        port = λ d j h. (
          ground (arith, v.port d j, reg j),
          ground (arith, v.port d j, v.table.unique c d j, attached-held rt laws s d j v),
        );
        no_other = owned;
        waits = λ d j h. (ground (arith, v.waits d j), ground (arith, v.waits d j));
        closed = λ d h. ground (arith, v.closed d);
      }
    where
      owned :
          (j : ℕ)
          → laws.has r j ≡ true
          → (d : ℕ) × ((if s.is_open d then update s.pool.conn_data c (some i) d else none)
              ≡ some j)
      owned j h = elim (Bool-cases (i == j)) [
        | inl same ↦ (c, ground (arith, v.waits c i mine))
        | inr other ↦
            (let (d, at) = v.no_other j (ground (arith, reg j)) in
              (d, ground (arith, v.waits c i mine)))
      ]

  refused-IsSound :
      (c i : ℕ) (slot : KissSlot) (r : R) (s : Server R)
      → s.taking c ≡ some i
      → slot.in_use ≡ false
      → ((j : ℕ) → laws.has r j ≡ (if i == j then false else laws.has s.pool.router j))
      → IsSound rt laws s
      → IsSound rt laws (record {
        pool = record s.pool { slots = update s.pool.slots i slot; router = r };
        is_open = s.is_open;
        taking = update s.taking c none;
      })
  refused-IsSound c i slot r s mine freed reg v =
      let (live, unset) = v.waits c i mine in
      record {
        table =
            same-Table (update (held s) c none) _ (update (λ j. (s.pool.slots j).in_use) i false) _
              (λ d. ground arith) (λ j. ground arith)
              (freed-Table (held s) (λ j. (s.pool.slots j).in_use) c i v.table (ground arith));
        below = λ j h. ground (arith, v.below j);
        port = λ d j h. (
          ground (arith, v.port d j, reg j, v.table.unique c d j, attached-held rt laws s d j v),
          ground (arith, v.port d j, v.table.unique c d j, attached-held rt laws s d j v),
        );
        no_other = λ j h. let (d, at) = v.no_other j (ground (arith, reg j)) in (d, ground arith);
        waits = λ d j h. (ground (arith, v.waits d j), ground (arith, v.waits d j));
        closed = λ d h. ground (arith, v.closed d);
      }

  -- The port of a slot that is being taken is not registered.
  unregistered :
      (c i : ℕ) (s : Server R)
      → s.taking c ≡ some i
      → IsSound rt laws s
      → laws.has s.pool.router i ≡ false
  unregistered c i s mine v = elim (Bool-cases (laws.has s.pool.router i)) [
    | inl known ↦
        (let (d, at) = v.no_other i known in
          absurd
            (ground (arith, v.waits c i mine, v.table.unique c d i, attached-held rt laws s d i v)))
    | inr unknown ↦ unknown
  ]

  pub attach-IsSound :
      (c i : ℕ) (is_promiscuous : Bool) (s : Server R)
      → s.taking c ≡ some i
      → IsSound rt laws s
      → IsSound rt laws (record s {
        pool = kiss_attach rt is_promiscuous c i s.pool;
        taking = update s.taking c none;
      })
  unfolding kiss_attach
  attach-IsSound c i is_promiscuous s mine v =
      let mode = if is_promiscuous then promiscuous else dynamic in
      let tried = rt.register_port i mode s.pool.router in
      elim (Bool-cases (is_ok tried.0)) [
        | inl ok ↦
            rw (ok, kiss_attach)
              (attached-IsSound c i (record (s.pool.slots i) { mode = mode; user_data = c }) tried.1
                s mine (v.table.used c i (ground arith)) refl
                (λ j. ground (arith, laws.registered i mode s.pool.router j)) v)
        | inr err ↦
            rw (err, kiss_attach)
              (refused-IsSound c i
                (set_in_use false (record (s.pool.slots i) { mode = mode; user_data = c })) tried.1
                s mine refl
                (λ j.
                  ground (arith, laws.registered i mode s.pool.router j, unregistered c i s mine v))
                v)
      ]
