-- ===== src/Agwpe/Tests.antt =====
-- The AGWPE pool at concrete runs.
use esp_tnc.Prelude.{ℕ, suc, ◌≡◌, refl, false, none, [], Bytes, arith}
use esp_tnc.Slots.{first_free}
use esp_tnc.Agwpe.{
  added, AgwpeServer, empty_slot, agwpe_on_connected, agwpe_on_disconnected, agwpe_cleanup_task,
}
use esp_tnc.Agwpe.Sound.{Clients, accept, close, clean, act, Run, start, then_act, IsSound}
use esp_tnc.Agwpe.Sharing.{Run-IsSound}
use esp_tnc.Agwpe.Cleanup.{closed_is_cleaned}

-- A server whose state is the number of its next client.
abbrev counting : AgwpeServer Bytes ℕ
counting = record {
  add_client = λ i a. added a (suc a);
  remove_client = λ k a. a;
  agwpe_in = λ k frame a. a;
  ax25_out = λ k frame a. a;
  encode = λ frame. frame;
  conn_send = λ c d a. a;
  decode = λ i d a. ([], a);
}

abbrev idle : Clients ℕ
idle = record {
  pool = record {
    max_clients = 2;
    slots = λ i. empty_slot;
    conn_data = λ c. none;
    queue = [];
    server = 5;
  };
  is_open = λ c. false;
}

idle-IsSound : IsSound idle
idle-IsSound = record {
  mine = λ c i h. absurd (ground arith);
  own = λ i c h. absurd (ground arith);
  waiting = λ i h. absurd (ground arith);
  pending = λ i h. absurd (ground arith);
  distinct = tt;
}

-- Two connections, of which the second has closed.
abbrev both : Clients ℕ
both = act counting 1 (accept 8) (act counting 1 (accept 7) idle)

abbrev one_left : ℕ → Clients ℕ
one_left room = act counting room (close 8) both

one_left-Run : (room : ℕ) → Run counting room idle 0 (one_left room)
unfolding agwpe_on_connected first_free
one_left-Run room =
    then_act (close 8) refl (then_act (accept 8) refl (then_act (accept 7) refl start))

one_left-IsSound : (room : ℕ) → IsSound (one_left room)
one_left-IsSound room = Run-IsSound counting room idle-IsSound (one_left-Run room)

Run-IsSound_example : IsSound (one_left 1)
Run-IsSound_example = Run-IsSound counting 1 idle-IsSound (one_left-Run 1)

-- The first closes too; the task has cleaned up the slot of the other.
abbrev none_left : Clients ℕ
none_left = act counting 2 clean (act counting 2 (close 7) (one_left 2))

closed_is_cleaned_example :
    ((agwpe_cleanup_task counting none_left.pool).slots 0 ≡ empty_slot)
    × ((agwpe_cleanup_task counting none_left.pool).server
        ≡ counting.remove_client 5 none_left.pool.server)
unfolding agwpe_on_connected agwpe_on_disconnected agwpe_cleanup_task first_free
closed_is_cleaned_example =
    closed_is_cleaned counting 2 7 0 5 (one_left 2) none_left (one_left-IsSound 2) refl refl
      (omega arith) (then_act clean tt start)

-- With room for one request, the slot of the first is lost.
abbrev lost : Clients ℕ
lost = act counting 1 clean (act counting 1 (close 7) (one_left 1))
