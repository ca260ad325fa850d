-- ===== src/Prelude/Text.antt =====
-- C strings: the bytes before the NUL.
use Prim.Native.Nat.{ℕ, zero, suc, ◌-◌, ◌<◌}
use Prim.Native.Char.{code}
use Prim.Native.String.{String}
use mathlib.Core.Path.{◌≡◌, refl, ap}
use mathlib.Core.Logic.{◌↔◌}
use mathlib.Core.Bool.{Bool, true, false, ◌&&◌}
use mathlib.Core.List.{List, [], ◌∷◌, ◌++◌}
use native.Mathlib.Omega.{arith}
use esp_tnc.Prelude.Tests.{◌==◌}
use esp_tnc.Prelude.Lists.{take}

abbrev pub Bytes : Type 0
Bytes = List ℕ

-- The bytes of an ASCII literal. `String` has its own `[]` and `∷`.
abbrev pub codes : String → Bytes
codes String.[] = []
codes (String.◌∷◌ c s) = code c ∷ codes s

-- strcmp(s, t) == 0
unfoldable pub str_eq : Bytes → Bytes → Bool
str_eq [] [] = true
str_eq [] (y ∷ t) = false
str_eq (x ∷ s) [] = false
str_eq (x ∷ s) (y ∷ t) = x == y && str_eq s t

pub str_eq_refl : (s : Bytes) → str_eq s s ≡ true
unfolding str_eq
str_eq_refl [] = refl
str_eq_refl (x ∷ s) = ground (arith, str_eq_refl s)

pub str_eq_sound : (s t : Bytes) → str_eq s t ≡ true → s ≡ t
unfolding str_eq
str_eq_sound [] [] h = refl
str_eq_sound [] (y ∷ t) h = ground arith
str_eq_sound (x ∷ s) [] h = ground arith
str_eq_sound (x ∷ s) (y ∷ t) h = ground (arith, str_eq_sound s t)

pub str_eq_iff : (s t : Bytes) → (str_eq s t ≡ true) ↔ (s ≡ t)
str_eq_iff s t = (str_eq_sound s t, λ e. rw e (str_eq_refl t))

-- s[0] == '\0'
abbrev pub is_empty : Bytes → Bool
is_empty [] = true
is_empty (x ∷ s) = false

-- What strlcpy, or snprintf of "%s", leaves in a buffer of `n` bytes.
abbrev pub strlcpy : ℕ → Bytes → Bytes
strlcpy n s = take (n - 1) s

-- The string that starts at a buffer: the bytes before the first NUL.
unfoldable pub c_str : Bytes → Bytes
c_str [] = []
c_str (zero ∷ s) = []
c_str (suc x ∷ s) = suc x ∷ c_str s

-- No byte of a C string is a NUL.
abbrev pub NoNul : Bytes → Type 0
NoNul [] = Unit
NoNul (x ∷ s) = (0 < x) × NoNul s

pub c_str-append_nul : (s t : Bytes) → NoNul s → c_str (s ++ (0 ∷ t)) ≡ s
unfolding c_str
c_str-append_nul [] t h = refl
c_str-append_nul (zero ∷ s) t h = absurd (omega arith)
c_str-append_nul (suc x ∷ s) t h = ap (λ l. suc x ∷ l) (c_str-append_nul s t h.1)
