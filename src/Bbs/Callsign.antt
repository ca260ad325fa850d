-- ===== src/Bbs/Callsign.antt =====
-- main/bbs.c: letters, callsigns and the comparison of commands.
use esp_tnc.Prelude.{
  ℕ, zero, suc, ◌+◌, ◌-◌, Bool, true, false, not, ◌&&◌, ◌||◌, [], ◌∷◌, Bytes, ltb, leb, ◌==◌,
  if◌then◌else◌, is_digit, is_empty,
}

-- if (c >= 'a' && c <= 'z') c = c - 'a' + 'A';
unfoldable pub upper : ℕ → ℕ
upper c = if leb b'a' c && leb c b'z' then c - b'a' + b'A' else c

-- No caller passes NULL.
unfoldable pub equals_ignore_case_ascii : Bytes → Bytes → Bool
equals_ignore_case_ascii [] [] = true
equals_ignore_case_ascii [] (y ∷ t) = false
equals_ignore_case_ascii (x ∷ s) [] = false
equals_ignore_case_ascii (x ∷ s) (y ∷ t) = upper x == upper y && equals_ignore_case_ascii s t

-- The loop of `bbs_base_callsign`, with room for so many more bytes.
unfoldable pub base_bytes : ℕ → Bytes → Bytes
base_bytes zero s = []
base_bytes (suc room) [] = []
base_bytes (suc room) (c ∷ s) = if c == b'-' then [] else upper c ∷ base_bytes room s

-- Into a buffer of `out_size` bytes.
unfoldable pub base_callsign : ℕ → Bytes → Bytes
unfolding base_bytes
base_callsign out_size src = base_bytes (out_size - 1) src

unfoldable pub full_bytes : ℕ → Bytes → Bytes
full_bytes zero s = []
full_bytes (suc room) [] = []
full_bytes (suc room) (c ∷ s) = upper c ∷ full_bytes room s

unfoldable pub normalize_full_callsign : ℕ → Bytes → Bytes
unfolding full_bytes
normalize_full_callsign out_size src = full_bytes (out_size - 1) src

abbrev pub is_letter : ℕ → Bool
is_letter c = leb b'A' c && leb c b'Z'

-- The letters at the front: how many, and what follows them.
unfoldable pub letters : Bytes → ℕ × Bytes
letters [] = (0, [])
letters (c ∷ s) = let (n, rest) = letters s in if is_letter c then (suc n, rest) else (0, c ∷ s)

-- After the digit: one to three letters and the end.
unfoldable pub is_suffix : Bytes → Bool
is_suffix s = let (n, rest) = letters s in if ltb n 1 || ltb 3 n then false else is_empty rest

-- After the prefix: the digit.
unfoldable pub is_digit_suffix : Bytes → Bool
is_digit_suffix [] = false
is_digit_suffix (c ∷ s) = if not (is_digit c) then false else is_suffix s

unfoldable pub is_valid_callsign : Bytes → Bool
unfolding letters is_digit_suffix is_suffix
is_valid_callsign str =
    let (n, rest) = letters (base_callsign 7 str) in
    if ltb n 1 || ltb 2 n then false else is_digit_suffix rest
