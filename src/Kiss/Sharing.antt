-- ===== src/Kiss/Sharing.antt =====
-- main/main.c: no two KISS clients share a port, and none is lost, also where connections of the
-- server's tasks interleave.
use esp_tnc.Prelude.{ℕ, ◌≡◌, false, none, arith}
use esp_tnc.Kiss.{Router, kiss_port_frame_cb}
use esp_tnc.Kiss.Server.{
  Registers, Server, Step, accept, attach, close, from_client, to_client, Reach, here, next,
  IsSound,
}
use esp_tnc.Kiss.Opening.{accepted-IsSound, routed-IsSound, attach-IsSound}
use esp_tnc.Kiss.Closing.{close-IsSound, from_client-IsSound}

module _ {F R : Type 0} (rt : Router F R) (laws : Registers rt) where
  Step-IsSound : {s t : Server R} → Step rt s t → IsSound rt laws s → IsSound rt laws t
  unfolding kiss_port_frame_cb
  Step-IsSound {s} (accept c shut) v = accepted-IsSound rt laws c s shut v
  Step-IsSound {s} (attach c i is_promiscuous mine) v =
      attach-IsSound rt laws c i is_promiscuous s mine v
  Step-IsSound {s} (close c live idle) v = close-IsSound rt laws c s live idle v
  Step-IsSound {s} (from_client c frame) v = from_client-IsSound rt laws c frame s v
  Step-IsSound {s} (to_client i frame) v =
      routed-IsSound rt laws s (rt.conn_send (s.pool.slots i).user_data frame s.pool.router)
        (λ j. laws.sent (s.pool.slots i).user_data frame s.pool.router j) v

  -- From a sound pool, such as an empty one, however the calls for different connections
  -- interleave, with a router that keeps what it accepts: each slot in use is that of one
  -- connection that is open, and of no other; the ports that the router knows are exactly those of
  -- the connections that are set up; and what it sends to such a port goes to that port's
  -- connection.
  pub Reach-IsSound : {s t : Server R} → IsSound rt laws s → Reach rt s t → IsSound rt laws t
  Reach-IsSound v here = v
  Reach-IsSound v (next r st) = Step-IsSound st (Reach-IsSound v r)

  -- A pool with no slot in use, for a router with no port.
  pub empty-IsSound :
      (s : Server R)
      → ((i : ℕ) → (s.pool.slots i).in_use ≡ false)
      → ((i : ℕ) → laws.has s.pool.router i ≡ false)
      → ((c : ℕ) → s.is_open c ≡ false)
      → ((c : ℕ) → s.taking c ≡ none)
      → IsSound rt laws s
  empty-IsSound s free none_registered none_open idle = record {
    table = record {
      used = λ c i h. ground (arith, idle c, none_open c);
      unique = λ c d i h k. ground (arith, idle c, none_open c);
      owner = λ i h. absurd (ground (arith, free i));
    };
    below = λ i h. absurd (ground (arith, free i));
    port = λ c i h. absurd (ground (arith, none_open c));
    no_other = λ i h. absurd (ground (arith, none_registered i));
    waits = λ c i h. absurd (ground (arith, idle c));
    closed = λ c h. idle c;
  }
