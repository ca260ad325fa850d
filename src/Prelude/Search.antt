-- ===== src/Prelude/Search.antt =====
-- strstr, and texts that end in another.
use Prim.Native.Nat.{ℕ}
use mathlib.Core.Path.{◌≡◌, refl, ◌∙◌}
use mathlib.Core.Bool.{Bool, true, false, not, ◌&&◌}
use mathlib.Core.Option.{Option, none, some}
use mathlib.Core.List.{[], ◌∷◌, ◌++◌}
use native.Mathlib.Omega.{arith}
use esp_tnc.Prelude.Tests.{◌==◌, if◌then◌else◌}
use esp_tnc.Prelude.Text.{Bytes}

-- Whether `s` begins with `t`.
unfoldable pub starts_with : Bytes → Bytes → Bool
starts_with [] s = true
starts_with (y ∷ t) [] = false
starts_with (y ∷ t) (x ∷ s) = x == y && starts_with t s

-- strstr(s, t): the rest of `s` from the first place on where `t` begins; `none` is NULL.
unfoldable pub strstr : Bytes → Bytes → Option Bytes
unfolding starts_with
strstr [] t = if starts_with t [] then some [] else none
strstr (x ∷ s) t = elim (starts_with t (x ∷ s)) [ true ↦ some (x ∷ s) | false ↦ strstr s t ]

pub starts_with-append : (t s : Bytes) → starts_with t (t ++ s) ≡ true
unfolding starts_with
starts_with-append [] s = refl
starts_with-append (y ∷ t) s = ground (arith, starts_with-append t s)

-- A text that is there is found, at its own place if it begins there.
pub strstr-append : (t s : Bytes) → strstr (t ++ s) t ≡ some (t ++ s)
unfolding strstr
strstr-append [] [] = refl
strstr-append [] (x ∷ s) = unfold starts_with in refl
strstr-append (y ∷ t) s = rw (starts_with-append (y ∷ t) s, strstr) refl

-- No byte of the text is this one.
abbrev pub Lacks : ℕ → Bytes → Type 0
Lacks c [] = Unit
Lacks c (x ∷ s) = ((x == c) ≡ false) × Lacks c s

strstr_next : (c x : ℕ) (t s : Bytes) → (x == c) ≡ false → strstr (x ∷ s) (c ∷ t) ≡ strstr s (c ∷ t)
unfolding strstr
strstr_next c x t s h =
    let other : starts_with (c ∷ t) (x ∷ s) ≡ false = unfold starts_with in ground (arith, h) in
    rw (other, strstr) refl

-- No occurrence begins where the first byte is another.
pub strstr_skip :
    (c : ℕ) (t pre s : Bytes) → Lacks c pre → strstr (pre ++ s) (c ∷ t) ≡ strstr s (c ∷ t)
strstr_skip c t [] s h = refl
strstr_skip c t (x ∷ pre) s h = strstr_next c x t (pre ++ s) h.0 ∙ strstr_skip c t pre s h.1

pub strstr-none : (c : ℕ) (t s : Bytes) → Lacks c s → strstr s (c ∷ t) ≡ none
strstr-none c t [] h = unfold strstr in unfold starts_with in refl
strstr-none c t (x ∷ s) h = strstr_next c x t s h.0 ∙ strstr-none c t s h.1

pub Lacks-append : (c : ℕ) (s t : Bytes) → Lacks c s → Lacks c t → Lacks c (s ++ t)
Lacks-append c [] t h k = k
Lacks-append c (x ∷ s) t h k = (h.0, Lacks-append c s t h.1 k)

abbrev is_absent : ℕ → Bytes → Bool
is_absent c [] = true
is_absent c (x ∷ s) = not (x == c) && is_absent c s

-- For a text that is given.
pub Lacks-given : (c : ℕ) (s : Bytes) → is_absent c s ≡ true → Lacks c s
Lacks-given c [] h = tt
Lacks-given c (x ∷ s) h = (ground arith, Lacks-given c s (ground arith))
