-- ===== src/Agwpe/Lost.antt =====
-- main/main.c: the slot of an AGWPE connection that closed while the clean-up queue was full.
use esp_tnc.Prelude.{ℕ, ◌≡◌, true, false, Option, some, List, ◌==◌}
use esp_tnc.Agwpe.{AgwpeSlot, AgwpePool}
use esp_tnc.Agwpe.Sound.{queued}

-- In use, though no connection has it and no clean-up of it waits.
pub record IsLost (i : ℕ) (slots : ℕ → AgwpeSlot) (conn_data : ℕ → Option ℕ) (queue : List (ℕ × ℕ))
    : Type 0 where
  pub used : (slots i).in_use ≡ true
  pub calm : queued i queue ≡ false
  pub no_owner : (c j : ℕ) → conn_data c ≡ some j → (j == i) ≡ false

abbrev pub LostIn : {A : Type 0} → ℕ → AgwpePool A → Type 0
LostIn i p = IsLost i p.slots p.conn_data p.queue
