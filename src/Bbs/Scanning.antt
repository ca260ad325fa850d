-- ===== src/Bbs/Scanning.antt =====
-- main/bbs.c: the texts of `process_command`, as sscanf, strtoul, atoi and printf treat them.
use esp_tnc.Prelude.{
  ℕ, zero, suc, ◌-◌, ◌/◌, ◌%◌, Bool, true, false, ◌&&◌, ◌||◌, [], ◌∷◌, ◌++◌, Bytes, codes, strlcpy,
  decimal, decimal_padded, scan, ltb, leb, ◌==◌, if◌then◌else◌, u32_max, u32_mod, min, map,
}
use esp_tnc.Bbs.Callsign.{upper}

-- isspace
abbrev pub is_space : ℕ → Bool
is_space c = c == 32 || leb 9 c && leb c 13

unfoldable pub skip_spaces : Bytes → Bytes
skip_spaces [] = []
skip_spaces (c ∷ s) = if is_space c then skip_spaces s else c ∷ s

-- "%<n>s": at most `n` bytes that are no white space, and what follows them.
unfoldable pub scan_word : ℕ → Bytes → Bytes × Bytes
scan_word zero s = ([], s)
scan_word (suc n) [] = ([], [])
scan_word (suc n) (c ∷ s) = elim (is_space c) [
  | true ↦ ([], c ∷ s)
  | false ↦ (let (w, rest) = scan_word n s in (c ∷ w, rest))
]

-- "%<n>[^\r]"
unfoldable pub scan_line : ℕ → Bytes → Bytes
scan_line zero s = []
scan_line (suc n) [] = []
scan_line (suc n) (c ∷ s) = elim (c == b'\r') [ true ↦ [] | false ↦ c ∷ scan_line n s ]

-- sscanf(line, "%7s %79[^\r]", cmd, arg), from two empty texts, and `cmd` in capitals.
unfoldable pub scan_command : Bytes → Bytes × Bytes
unfolding skip_spaces scan_word scan_line
scan_command line =
    let (cmd, rest) = scan_word 7 (skip_spaces line) in
    (map upper cmd, scan_line 79 (skip_spaces rest))

-- strtoul in base 10, on a 32-bit unsigned long.
unfoldable pub strtoul_digits : Bool → Bytes → ℕ
strtoul_digits negative s =
    if ltb u32_max (scan 0 s)
    then u32_max
    else if negative
    then (u32_mod - scan 0 s) % u32_mod
    else scan 0 s

unfoldable pub strtoul_sign : Bytes → ℕ
unfolding strtoul_digits
strtoul_sign [] = 0
strtoul_sign (c ∷ s) =
    if c == b'-'
    then strtoul_digits true s
    else if c == b'+'
    then strtoul_digits false s
    else strtoul_digits false (c ∷ s)

unfoldable pub strtoul : Bytes → ℕ
unfolding strtoul_sign skip_spaces
strtoul s = strtoul_sign (skip_spaces s)

-- atoi, with 0 for the numbers below it, which the caller does not tell apart.
unfoldable pub atoi_sign : Bytes → ℕ
atoi_sign [] = 0
atoi_sign (c ∷ s) =
    if c == b'-' then 0 else min 2147483647 (if c == b'+' then scan 0 s else scan 0 (c ∷ s))

unfoldable pub atoi : Bytes → ℕ
unfolding atoi_sign skip_spaces
atoi s = atoi_sign (skip_spaces s)

-- The time since `then_unix`, into 24 bytes, at the time `now_unix`.
unfoldable pub format_elapsed_since : ℕ → ℕ → Bytes
format_elapsed_since then_unix now_unix =
    if then_unix == u32_max
    then codes "pre-boot"
    else let delta = if leb then_unix now_unix then now_unix - then_unix else 0 in
      strlcpy 24 (
        decimal (delta / 86400)
        ++ (codes "d "
            ++ (decimal_padded 2 (delta % 86400 / 3600)
                ++ (codes ":" ++ decimal_padded 2 (delta % 3600 / 60)))))
