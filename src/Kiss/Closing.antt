-- ===== src/Kiss/Closing.antt =====
-- main/main.c: `kiss_on_disconnected` and `kiss_on_frame` keep the pool sound.
use esp_tnc.Prelude.{
  ℕ, ◌≡◌, refl, true, false, none, some, ◌==◌, if◌then◌else◌, update, arith, inl, inr, Option-cases,
}
use esp_tnc.Slots.{freed-Table, same-Table}
use esp_tnc.Kiss.{Router, kiss_on_disconnected, kiss_on_frame, set_in_use}
use esp_tnc.Kiss.Server.{Registers, Server, attached, held, IsSound, attached-held}
use esp_tnc.Kiss.Opening.{routed-IsSound}

module _ {F R : Type 0} (rt : Router F R) (laws : Registers rt) where
  freed-IsSound :
      (c i : ℕ) (r : R) (s : Server R)
      → s.taking c ≡ none
      → attached s c ≡ some i
      → ((j : ℕ) → laws.has r j ≡ (if i == j then false else laws.has s.pool.router j))
      → IsSound rt laws s
      → IsSound rt laws (record s {
        pool = record s.pool {
          router = r;
          slots = update s.pool.slots i (set_in_use false (s.pool.slots i));
        };
        is_open = update s.is_open c false;
      })
  freed-IsSound c i r s idle mine reg v = record {
    table =
        same-Table (update (held s) c none) _ (update (λ j. (s.pool.slots j).in_use) i false) _
          (λ d. ground arith) (λ j. ground arith)
          (freed-Table (held s) (λ j. (s.pool.slots j).in_use) c i v.table (ground arith));
    below = λ j h. ground (arith, v.below j);
    port = λ d j h. (
      ground (
        arith,
        v.port d j,
        reg j,
        v.table.unique c d j,
        attached-held rt laws s d j v,
        attached-held rt laws s c i v,
      ),
      ground (
        arith,
        v.port d j,
        v.table.unique c d j,
        attached-held rt laws s d j v,
        attached-held rt laws s c i v,
      ),
    );
    no_other =
        λ j h. let (d, at) = v.no_other j (ground (arith, reg j)) in (d, ground (arith, reg j));
    waits = λ d j h. (ground (arith, v.waits d j), ground (arith, v.waits d j));
    closed = λ d h. ground (arith, v.closed d);
  }

  gone :
      (c : ℕ) (s : Server R)
      → s.taking c ≡ none
      → attached s c ≡ none
      → IsSound rt laws s
      → IsSound rt laws (record s { is_open = update s.is_open c false })
  gone c s idle nothing v = record {
    table =
        same-Table (held s) _ (λ j. (s.pool.slots j).in_use) (λ j. (s.pool.slots j).in_use)
          (λ d. ground arith) (λ j. refl) v.table;
    below = v.below;
    port = λ d j h. (ground (arith, v.port d j), ground (arith, v.port d j));
    no_other = λ j h. let (d, at) = v.no_other j h in (d, ground arith);
    waits = λ d j h. (ground (arith, v.waits d j), ground (arith, v.waits d j));
    closed = λ d h. ground (arith, v.closed d);
  }

  pub close-IsSound :
      (c : ℕ) (s : Server R)
      → s.is_open c ≡ true
      → s.taking c ≡ none
      → IsSound rt laws s
      → IsSound rt laws
          (record s { pool = kiss_on_disconnected rt c s.pool; is_open = update s.is_open c false })
  unfolding kiss_on_disconnected
  close-IsSound c s live idle v = elim (Option-cases (s.pool.conn_data c)) [
    | inl nothing ↦ rw (nothing, kiss_on_disconnected) (gone c s idle (ground arith) v)
    | inr (i, mine) ↦
        rw (mine, kiss_on_disconnected)
          (freed-IsSound c i (rt.remove_port i s.pool.router) s idle (ground arith)
            (λ j. laws.removed i s.pool.router j) v)
  ]

  pub from_client-IsSound :
      (c : ℕ) (frame : F) (s : Server R)
      → IsSound rt laws s
      → IsSound rt laws (record s { pool = kiss_on_frame rt c frame s.pool })
  unfolding kiss_on_frame
  from_client-IsSound c frame s v = elim (Option-cases (s.pool.conn_data c)) [
    | inl nothing ↦ rw (nothing, kiss_on_frame) v
    | inr (i, mine) ↦
        rw (mine, kiss_on_frame)
          (routed-IsSound rt laws s (rt.router_send frame i s.pool.router)
            (λ j. laws.routed frame i s.pool.router j) v)
  ]
