-- ===== src/Esp.antt =====
-- `esp_err_t`, as far as the program tells its values apart.
pub mod Retry
use Prim.Native.Nat.{ℕ}
use mathlib.Core.Path.{◌≡◌}
use mathlib.Core.Bool.{Bool, true, false}
use native.Mathlib.Omega.{arith}

pub data EspErr : Type 0 where
  esp_ok esp_fail no_mem invalid_arg invalid_state not_found timeout nvs_not_found : EspErr
  other : ℕ → EspErr

-- err == ESP_OK
abbrev pub is_ok : EspErr → Bool
is_ok esp_ok = true
is_ok _ = false

-- err == ESP_ERR_NO_MEM
abbrev pub is_no_mem : EspErr → Bool
is_no_mem no_mem = true
is_no_mem _ = false

pub is_ok-no_mem : (e : EspErr) → is_no_mem e ≡ true → is_ok e ≡ false
is_ok-no_mem e h = ground arith
