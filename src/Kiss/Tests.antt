-- ===== src/Kiss/Tests.antt =====
-- The KISS pool at a concrete run.
use esp_tnc.Prelude.{
  ℕ, ◌≡◌, refl, Bool, true, false, none, ◌==◌, ◌&&◌, ltb, if◌then◌else◌, update, arith, Bytes,
}
use esp_tnc.Esp.{esp_ok, no_mem, is_ok}
use esp_tnc.Slots.{first_free}
use esp_tnc.Kiss.{PortMode, dynamic, Router, kiss_take_slot, kiss_attach, kiss_on_disconnected}
use esp_tnc.Kiss.Server.{
  Registers, Server, Reach, here, next, accept, attach, close, IsSound, accepted,
}
use esp_tnc.Kiss.Sharing.{Reach-IsSound, empty-IsSound}

-- A router that takes the first port only.
abbrev small_router : Router Bytes (ℕ → Bool)
small_router = record {
  register_port = λ i m r.
      ((if ltb i 1 then esp_ok else no_mem), (λ j. if i == j && ltb i 1 then true else r j));
  remove_port = λ i r. update r i false;
  router_send = λ frame i r. r;
  conn_send = λ conn frame r. r;
}

small_router-registered :
    (i : ℕ) (m : PortMode) (r : ℕ → Bool) (j : ℕ)
    → (small_router.register_port i m r).1 j
      ≡ (if i == j && is_ok (small_router.register_port i m r).0 then true else r j)
small_router-registered i m r j = ground arith

abbrev small_router-laws : Registers small_router
small_router-laws = record {
  has = λ r i. r i;
  registered = small_router-registered;
  removed = λ i r j. refl;
  routed = λ frame i r j. refl;
  sent = λ conn frame r j. refl;
}

abbrev start : Server (ℕ → Bool)
start = record {
  pool = record {
    max_clients = 2;
    slots = λ i. record { in_use = false; mode = dynamic; user_data = 0 };
    conn_data = λ c. none;
    router = λ i. false;
  };
  is_open = λ c. false;
  taking = λ c. none;
}

start-IsSound : IsSound small_router small_router-laws start
start-IsSound =
    empty-IsSound small_router small_router-laws start (λ i. refl) (λ i. refl) (λ c. refl)
      (λ c. refl)

-- Two clients come before the first is set up; the second is refused, and the first leaves.
abbrev one : Server (ℕ → Bool)
one = accepted small_router 7 start

abbrev two : Server (ℕ → Bool)
two = accepted small_router 8 one

abbrev set_up : Server (ℕ → Bool)
set_up = record two {
  pool = kiss_attach small_router false 7 0 two.pool;
  taking = update two.taking 7 none;
}

abbrev refused : Server (ℕ → Bool)
refused = record set_up {
  pool = kiss_attach small_router false 8 1 set_up.pool;
  taking = update set_up.taking 8 none;
}

abbrev left : Server (ℕ → Bool)
left = record refused {
  pool = kiss_on_disconnected small_router 7 refused.pool;
  is_open = update refused.is_open 7 false;
}

two_clients-Reach : Reach small_router start left
unfolding kiss_take_slot kiss_attach kiss_on_disconnected first_free
two_clients-Reach =
    next
      (next (next (next (next here (accept 7 refl)) (accept 8 refl)) (attach 7 0 false refl))
        (attach 8 1 false refl))
      (close 7 refl refl)

Reach-IsSound_example : IsSound small_router small_router-laws left
Reach-IsSound_example = Reach-IsSound small_router small_router-laws start-IsSound two_clients-Reach
