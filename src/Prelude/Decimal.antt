-- ===== src/Prelude/Decimal.antt =====
-- Decimal numbers as printf writes them and strtoul reads them.
use Prim.Native.Nat.{ℕ, zero, suc, ◌+◌, ◌-◌, ◌*◌, ◌/◌, ◌%◌, ◌^◌, ◌≤◌, ◌<◌}
use mathlib.Core.Path.{◌≡◌, refl, ◌∙◌, ap}
use mathlib.Core.Logic.{inl, inr}
use mathlib.Core.Bool.{Bool, true, false, ◌&&◌}
use mathlib.Core.List.{[], ◌∷◌, ◌++◌, append_assoc}
use native.Mathlib.Omega.{arith}
use native.Mathlib.Nat.{pow-suc}
use esp_tnc.Prelude.Tests.{ltb, leb, if◌then◌else◌, Bool-cases, tests}
use esp_tnc.Prelude.Lists.{length, replicate, length-append, length-replicate}
use esp_tnc.Prelude.Text.{Bytes}

abbrev pub is_digit : ℕ → Bool
is_digit c = leb b'0' c && leb c b'9'

-- The digits of `n`, before `tail`; `fuel` digits at most.
unfoldable pub digits : ℕ → ℕ → Bytes → Bytes
digits zero n tail = tail
digits (suc fuel) n tail = elim (ltb n 10) [
  | true ↦ (48 + n) ∷ tail
  | false ↦ digits fuel (n / 10) ((48 + n % 10) ∷ tail)
]

-- "%lu" of a uint32_t: ten digits are enough.
abbrev pub decimal : ℕ → Bytes
decimal n = digits 10 n []

-- "%0wlu"
unfoldable pub decimal_padded : ℕ → ℕ → Bytes
decimal_padded w n = replicate (w - length (decimal n)) 48 ++ decimal n

-- The value of the leading digits, from `acc` on.
unfoldable pub scan : ℕ → Bytes → ℕ
scan acc [] = acc
scan acc (c ∷ s) = if is_digit c then scan (acc * 10 + (c - 48)) s else acc

scan-digit : (acc d : ℕ) (s : Bytes) → d < 10 → scan acc ((48 + d) ∷ s) ≡ scan (acc * 10 + d) s
unfolding scan
scan-digit acc d s h =
    let digit : is_digit (48 + d) ≡ true = ground arith in
    rw digit (ap (λ v. scan (acc * 10 + v) s) (omega arith))

fuel_left : (fuel n : ℕ) → 10 ≤ n → n < 10 ^ suc fuel → (0 < fuel) × (n / 10 < 10 ^ fuel)
fuel_left zero n ten h = absurd (omega arith)
fuel_left (suc fuel) n ten h =
    let h' : n < 10 ^ suc fuel * 10 = rw pow-suc at h in (omega arith, omega arith)

pub scan-digits :
    (fuel n : ℕ) (tail : Bytes)
    → 0 < fuel
    → n < 10 ^ fuel
    → scan 0 (digits fuel n tail) ≡ scan n tail
unfolding digits
scan-digits zero n tail pos h = absurd (omega arith)
scan-digits (suc fuel) n tail pos h = elim (Bool-cases (ltb n 10)) [
  | inl last ↦
      rw (last, digits) (scan-digit 0 n tail (omega tests) ∙ ap (λ v. scan v tail) (omega arith))
  | inr more ↦
      (let ten : 10 ≤ n = ground arith in
        let (pos', h') = fuel_left fuel n ten h in
        rw (more, digits)
          (scan-digits fuel (n / 10) ((48 + n % 10) ∷ tail) pos' h'
            ∙ scan-digit (n / 10) (n % 10) tail (omega arith)
            ∙ ap (λ v. scan v tail) (omega arith)))
]

scan-zeros : (k : ℕ) (s : Bytes) → scan 0 (replicate k 48 ++ s) ≡ scan 0 s
scan-zeros zero s = refl
scan-zeros (suc k) s = scan-digit 0 0 (replicate k 48 ++ s) (omega arith) ∙ scan-zeros k s

pub digits-append : (fuel n : ℕ) (s t : Bytes) → digits fuel n s ++ t ≡ digits fuel n (s ++ t)
unfolding digits
digits-append zero n s t = refl
digits-append (suc fuel) n s t = elim (Bool-cases (ltb n 10)) [
  | inl last ↦ rw (last, digits) refl
  | inr more ↦ rw (more, digits) (digits-append fuel (n / 10) ((48 + n % 10) ∷ s) t)
]

-- Reading back what was printed, before any text that does not begin with a digit.
pub scan-decimal_padded :
    (w n c : ℕ) (t : Bytes)
    → n < 4294967296
    → is_digit c ≡ false
    → scan 0 (decimal_padded w n ++ (c ∷ t)) ≡ n
unfolding decimal_padded
scan-decimal_padded w n c t h stop =
    rw (append_assoc, scan-zeros (w - length (decimal n)) _, digits-append 10 n [] (c ∷ t))
      (scan-digits 10 n (c ∷ t) (omega arith) (omega arith) ∙ stopped)
  where
    stopped : scan n (c ∷ t) ≡ n
    stopped = unfold scan in rw stop

pub length-digits : (fuel n : ℕ) (tail : Bytes) → length (digits fuel n tail) ≤ fuel + length tail
unfolding digits
length-digits zero n tail = omega arith
length-digits (suc fuel) n tail = ground (arith, length-digits fuel (n / 10) ((48 + n % 10) ∷ tail))

pub length-decimal_padded : (w n : ℕ) → length (decimal_padded w n) ≤ 10 + w
unfolding decimal_padded
length-decimal_padded w n =
    rw (length-append, length-replicate) (omega (arith, length-digits 10 n []))
