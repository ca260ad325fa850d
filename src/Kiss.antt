-- ===== src/Kiss.antt =====
-- main/main.c: the pool of router ports of the KISS clients. A connection of the TCP server is its
-- number, and a port the index of its slot.
pub mod Server
pub mod Opening
pub mod Closing
pub mod Sharing
mod Tests
use esp_tnc.Prelude.{ℕ, Bool, true, false, Option, none, some, if◌then◌else◌, update}
use esp_tnc.Esp.{EspErr, is_ok}
use esp_tnc.Slots.{first_free}

-- `ax25_port_mode_t`, as far as the pool uses it.
pub data PortMode : Type 0 where
  promiscuous dynamic : PortMode

-- `kiss_port_slot_t`; `user_data` is the port's, the connection.
pub record KissSlot : Type 0 where
  pub in_use : Bool
  pub mode : PortMode
  pub user_data : ℕ

-- The router and the sending side of the TCP server, over the state `R` of both, for frames `F`.
pub record Router (F R : Type 0) : Type 0 where
  pub register_port : ℕ → PortMode → R → EspErr × R
  pub remove_port : ℕ → R → R
  pub router_send : F → ℕ → R → R
  pub conn_send : ℕ → F → R → R

-- `conn_data` is the user data of each connection; `none` is NULL.
pub record KissPool (R : Type 0) : Type 0 where
  pub max_clients : ℕ
  pub slots : ℕ → KissSlot
  pub conn_data : ℕ → Option ℕ
  pub router : R

abbrev pub set_in_use : Bool → KissSlot → KissSlot
set_in_use b s = record s { in_use = b }

module _ {F R : Type 0} (rt : Router F R) where
  unfoldable pub kiss_port_frame_cb : ℕ → F → KissPool R → KissPool R
  kiss_port_frame_cb i frame p = record p {
    router = rt.conn_send (p.slots i).user_data frame p.router;
  }

  -- Under the mutex: the first slot that is not in use is taken.
  unfoldable pub kiss_take_slot : KissPool R → Option ℕ × KissPool R
  kiss_take_slot p =
      let found = first_free (λ i. (p.slots i).in_use) p.max_clients 0 in
      (
        found,
        elim found [
          | none ↦ p
          | some i ↦ record p { slots = update p.slots i (set_in_use true (p.slots i)) }
        ],
      )

  -- The slot's port is set up and registered. If the router refuses it, the slot is free again.
  unfoldable pub kiss_attach : Bool → ℕ → ℕ → KissPool R → KissPool R
  kiss_attach is_promiscuous conn i p =
      let mode = if is_promiscuous then promiscuous else dynamic in
      let slot : KissSlot = record (p.slots i) { mode = mode; user_data = conn } in
      let (err, r) = rt.register_port i mode p.router in
      if is_ok err
      then record p {
        slots = update p.slots i slot;
        conn_data = update p.conn_data conn (some i);
        router = r;
      }
      else record p { slots = update p.slots i (set_in_use false slot); router = r }

  -- `is_promiscuous` is the setting net.kiss.server.promiscuous.
  unfoldable pub kiss_on_connected : Bool → ℕ → KissPool R → KissPool R
  unfolding kiss_take_slot kiss_attach
  kiss_on_connected is_promiscuous conn p =
      let (found, p') = kiss_take_slot p in
      elim found [ none ↦ p' | some i ↦ kiss_attach is_promiscuous conn i p' ]

  unfoldable pub kiss_on_disconnected : ℕ → KissPool R → KissPool R
  kiss_on_disconnected conn p = elim (p.conn_data conn) [
    | none ↦ p
    | some i ↦ record p {
      router = rt.remove_port i p.router;
      slots = update p.slots i (set_in_use false (p.slots i));
    }
  ]

  unfoldable pub kiss_on_frame : ℕ → F → KissPool R → KissPool R
  kiss_on_frame conn frame p = elim (p.conn_data conn) [
    | none ↦ p
    | some i ↦ record p { router = rt.router_send frame i p.router }
  ]
