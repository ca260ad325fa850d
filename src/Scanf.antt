-- ===== src/Scanf.antt =====
-- sscanf, as the test programs use it: with formats of text and of numbers.
use esp_tnc.Prelude.{
  ℕ, zero, suc, ◌+◌, ◌/◌, ◌%◌, ◌<◌, ◌≡◌, refl, ◌∙◌, ap, Bool, true, false, Option, none, some, List,
  [], ◌∷◌, ◌++◌, Bytes, ◌==◌, if◌then◌else◌, is_digit, scan, digits, decimal, scan-digits,
  digits-append, arith, inl, inr, Lacks, Bool-cases, ltb, u32_mod,
}
use esp_tnc.Bbs.Scanning.{is_space, skip_spaces, strtoul_digits}

-- A white space of the format, a byte that must be there, and "%lu" or "%u".
pub data Item : Type 0 where
  space number : Item
  byte : ℕ → Item

-- The items of a text with no '%'.
abbrev pub text : Bytes → List Item
text [] = []
text (c ∷ s) = (if is_space c then space else byte c) ∷ text s

unfoldable pub drop_digits : Bytes → Bytes
drop_digits [] = []
drop_digits (c ∷ s) = if is_digit c then drop_digits s else c ∷ s

abbrev pub starts_digit : Bytes → Bool
starts_digit [] = false
starts_digit (c ∷ s) = is_digit c

-- The digits of a number, and what follows them; `none` if there are none.
unfoldable pub scan_digits : Bool → Bytes → Option (ℕ × Bytes)
unfolding strtoul_digits drop_digits
scan_digits negative s =
    if starts_digit s then some (strtoul_digits negative s, drop_digits s) else none

-- After the white space: a sign, if there is one.
unfoldable pub scan_sign : Bytes → Option (ℕ × Bytes)
unfolding scan_digits
scan_sign [] = none
scan_sign (c ∷ s) =
    if c == b'-'
    then scan_digits true s
    else if c == b'+'
    then scan_digits false s
    else scan_digits false (c ∷ s)

unfoldable pub scan_number : Bytes → Option (ℕ × Bytes)
unfolding scan_sign skip_spaces
scan_number s = scan_sign (skip_spaces s)

-- The numbers that are converted, up to the first item that does not match; sscanf returns how
-- many.
unfoldable pub sscanf : List Item → Bytes → List ℕ
unfolding scan_number skip_spaces
sscanf [] s = []
sscanf (space ∷ f) s = sscanf f (skip_spaces s)
sscanf (byte c ∷ f) [] = []
sscanf (byte c ∷ f) (x ∷ s) = elim (x == c) [ true ↦ sscanf f s | false ↦ [] ]
sscanf (number ∷ f) s = elim (scan_number s) [ none ↦ [] | some (n, rest) ↦ n ∷ sscanf f rest ]

-- Reading back what printf wrote.
digits-starts :
    (fuel n : ℕ) (tail : Bytes)
    → starts_digit tail ≡ true
    → starts_digit (digits fuel n tail) ≡ true
unfolding digits
digits-starts zero n tail h = h
digits-starts (suc fuel) n tail h = elim (Bool-cases (ltb n 10)) [
  | inl last ↦ rw (last, digits) (ground arith)
  | inr more ↦ rw (more, digits) (digits-starts fuel (n / 10) ((48 + n % 10) ∷ tail) (ground arith))
]

decimal-starts : (n : ℕ) (tail : Bytes) → starts_digit (digits 10 n tail) ≡ true
unfolding digits
decimal-starts n tail = elim (Bool-cases (ltb n 10)) [
  | inl last ↦ rw (last, digits) (ground arith)
  | inr more ↦ rw (more, digits) (digits-starts 9 (n / 10) ((48 + n % 10) ∷ tail) (ground arith))
]

drop_digits-digits :
    (fuel n : ℕ) (tail : Bytes) → drop_digits (digits fuel n tail) ≡ drop_digits tail
unfolding digits drop_digits
drop_digits-digits zero n tail = refl
drop_digits-digits (suc fuel) n tail = elim (Bool-cases (ltb n 10)) [
  | inl last ↦ rw (last, digits) (ground arith)
  | inr more ↦
      rw (more, digits) (drop_digits-digits fuel (n / 10) ((48 + n % 10) ∷ tail) ∙ ground arith)
]

stopped : (n : ℕ) (t : Bytes) → starts_digit t ≡ false → (scan n t ≡ n) × (drop_digits t ≡ t)
unfolding scan drop_digits
stopped n [] h = (refl, refl)
stopped n (c ∷ t) h = (ground arith, ground arith)

plain :
    (s : Bytes)
    → starts_digit s ≡ true
    → scan_number s ≡ some (strtoul_digits false s, drop_digits s)
unfolding scan_number
plain [] h = cc
plain (c ∷ s) h = ground arith

pub scan_number-decimal :
    (n : ℕ) (t : Bytes)
    → n < u32_mod
    → starts_digit t ≡ false
    → scan_number (decimal n ++ t) ≡ some (n, t)
scan_number-decimal n t h stop =
    let whole : decimal n ++ t ≡ digits 10 n t = digits-append 10 n [] t in
    let value : scan 0 (digits 10 n t) ≡ n =
      scan-digits 10 n t (omega arith) (omega arith) ∙ (stopped n t stop).0 in
    let rest : drop_digits (digits 10 n t) ≡ t = drop_digits-digits 10 n t ∙ (stopped 0 t stop).1 in
    let read : strtoul_digits false (digits 10 n t) ≡ n =
      unfold strtoul_digits in rw value (ground arith) in
    rw whole (plain (digits 10 n t) (decimal-starts n t) ∙ rw (read, rest) refl)

pub sscanf-number :
    (f : List Item) (n : ℕ) (t : Bytes)
    → n < u32_mod
    → starts_digit t ≡ false
    → sscanf (number ∷ f) (decimal n ++ t) ≡ n ∷ sscanf f t
unfolding sscanf
sscanf-number f n t h stop = rw (scan_number-decimal n t h stop, sscanf) refl

skip_spaces_twice : (s : Bytes) → skip_spaces (skip_spaces s) ≡ skip_spaces s
unfolding skip_spaces
skip_spaces_twice [] = refl
skip_spaces_twice (c ∷ s) = ground (arith, skip_spaces_twice s)

-- White space in the format, before a number, matches any.
pub sscanf-space_number :
    (f : List Item) (n : ℕ) (t : Bytes)
    → n < u32_mod
    → starts_digit t ≡ false
    → sscanf (space ∷ number ∷ f) (32 ∷ (decimal n ++ t)) ≡ n ∷ sscanf f t
unfolding sscanf
sscanf-space_number f n t h stop =
    let read : scan_number (skip_spaces (32 ∷ (decimal n ++ t))) ≡ some (n, t) =
      unfold scan_number in ap scan_sign (skip_spaces_twice (decimal n ++ t)) ∙ read_number in
    rw (read, sscanf) refl
  where
    read_number : scan_number (decimal n ++ t) ≡ some (n, t)
    read_number = scan_number-decimal n t h stop

-- No byte that is no digit is printed.
pub Lacks-digits :
    (c fuel n : ℕ) (tail : Bytes) → is_digit c ≡ false → Lacks c tail → Lacks c (digits fuel n tail)
unfolding digits
Lacks-digits c zero n tail h k = k
Lacks-digits c (suc fuel) n tail h k = elim (Bool-cases (ltb n 10)) [
  | inl last ↦ rw (last, digits) (ground arith, k)
  | inr more ↦
      rw (more, digits) (Lacks-digits c fuel (n / 10) ((48 + n % 10) ∷ tail) h (ground arith, k))
]
