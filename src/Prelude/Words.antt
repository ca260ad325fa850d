-- ===== src/Prelude/Words.antt =====
-- uint32_t, and its four little-endian bytes.
use Prim.Native.Nat.{ℕ, ◌+◌, ◌-◌, ◌*◌, ◌/◌, ◌%◌, ◌<◌}
use mathlib.Core.Path.{◌≡◌, refl}
use mathlib.Core.List.{[], ◌∷◌, ◌++◌}
use native.Mathlib.Omega.{arith}
use esp_tnc.Prelude.Lists.{length, drop}
use esp_tnc.Prelude.Text.{Bytes}

abbrev pub u32_mod : ℕ
u32_mod = 4294967296

abbrev pub u32_max : ℕ
u32_max = 4294967295

-- a + b, a - b in uint32_t
abbrev pub add32 : ℕ → ℕ → ℕ
add32 a b = (a + b) % u32_mod

abbrev pub sub32 : ℕ → ℕ → ℕ
sub32 a b = (a + u32_mod - b) % u32_mod

unfoldable pub le32 : ℕ → Bytes
le32 x = x % 256 ∷ x / 256 % 256 ∷ x / 65536 % 256 ∷ x / 16777216 % 256 ∷ []

unfoldable pub of_le32 : Bytes → ℕ
of_le32 (a ∷ b ∷ c ∷ d ∷ s) = a + 256 * b + 65536 * c + 16777216 * d
of_le32 _ = 0

pub of_le32-append : (x : ℕ) (s : Bytes) → x < u32_mod → of_le32 (le32 x ++ s) ≡ x
unfolding of_le32 le32
of_le32-append x s h = omega arith

pub drop-le32 : (x : ℕ) (s : Bytes) → drop 4 (le32 x ++ s) ≡ s
unfolding le32
drop-le32 x s = refl

pub length-le32 : (x : ℕ) → length (le32 x) ≡ 4
unfolding le32
length-le32 x = refl
