-- ===== src/Prelude/Buffers.antt =====
-- A C string in a zeroed buffer, and back.
use Prim.Native.Nat.{ℕ, suc, ◌-◌, ◌≤◌}
use mathlib.Core.Path.{◌≡◌}
use mathlib.Core.List.{◌++◌}
use native.Mathlib.Omega.{arith}
use esp_tnc.Prelude.Lists.{length, take, replicate, length-append, length-replicate}
use esp_tnc.Prelude.Cuts.{take_all}
use esp_tnc.Prelude.Text.{Bytes, c_str, NoNul, c_str-append_nul}

-- `s` in a buffer of `n` bytes, with zeros behind it.
unfoldable pub pad : ℕ → Bytes → Bytes
pad n s = take n s ++ replicate (n - length s) 0

pub length-pad : (n : ℕ) (s : Bytes) → length s ≤ n → length (pad n s) ≡ n
unfolding pad
length-pad n s h = rw (take_all n s h, length-append, length-replicate) (omega arith)

pub c_str-pad : (n : ℕ) (s : Bytes) → suc (length s) ≤ n → NoNul s → c_str (pad n s) ≡ s
unfolding pad
c_str-pad n s h text =
    let more : n - length s ≡ suc (n - suc (length s)) = omega arith in
    rw (take_all n s (omega arith), more) (c_str-append_nul s _ text)
