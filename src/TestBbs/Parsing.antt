-- ===== src/TestBbs/Parsing.antt =====
-- test_bbs/main/main.c: what is read out of a capture.
use esp_tnc.Prelude.{
  ℕ, zero, suc, ◌-◌, ◌%◌, Bool, true, false, not, ◌&&◌, ◌||◌, Option, none, some, List, [], ◌∷◌,
  ◌++◌, Bytes, codes, starts_with, strstr, ltb, ◌==◌, if◌then◌else◌, length, drop, get_or,
}
use esp_tnc.Scanf.{Item, space, number, text, scan_number, sscanf}

-- strstr(capture, needle) != NULL
unfoldable pub capture_contains : Bytes → Bytes → Bool
capture_contains capture needle = elim (strstr capture needle) [ none ↦ false | some p ↦ true ]

-- The four numbers, if there are four, as uint16_t.
unfoldable pub four_indices : List ℕ → Option (List ℕ)
four_indices (a ∷ b ∷ c ∷ d ∷ []) = some (a % 65536 ∷ b % 65536 ∷ c % 65536 ∷ d % 65536 ∷ [])
four_indices _ = none

abbrev pub challenge_format : List Item
challenge_format =
    text (codes "CHAL ") ++ (number ∷ space ∷ number ∷ space ∷ number ∷ space ∷ number ∷ [])

unfoldable pub parse_sysop_challenge : Bytes → Option (List ℕ)
unfolding four_indices
parse_sysop_challenge capture = elim (strstr capture (codes "CHAL ")) [
  | none ↦ none
  | some chal ↦ four_indices (sscanf challenge_format chal)
]

-- The loop over the indices; `none`: one of them is no place of the secret.
unfoldable pub required_of : Bytes → List ℕ → Option Bytes
required_of secret [] = some []
required_of secret (idx ∷ is) =
    if idx == 0 || ltb (length secret) idx then none else elim (required_of secret is) [
      | none ↦ none
      | some r ↦ some (get_or secret (idx - 1) 0 ∷ r)
    ]

-- required[i % SYSOP_CHALLENGE_INDEX_COUNT], for the six bytes of the response.
unfoldable pub six_bytes : Bytes → Bytes
six_bytes r =
    get_or r 0 0 ∷ get_or r 1 0 ∷ get_or r 2 0 ∷ get_or r 3 0 ∷ get_or r 0 0 ∷ get_or r 1 0 ∷ []

unfoldable pub build_sysop_response : Bytes → List ℕ → Option Bytes
unfolding required_of six_bytes
build_sysop_response secret indices =
    if ltb (length secret) 4
    then none
    else elim (required_of secret indices) [ none ↦ none | some r ↦ some (six_bytes r) ]

abbrev pub summary_format : List Item
summary_format =
    text (codes "*** You have ")
    ++ (number ∷ (text (codes " messages (") ++ (number ∷ text (codes " new)"))))

unfoldable pub two_counts : List ℕ → Option (ℕ × ℕ)
two_counts (total ∷ new_count ∷ []) = some (total, new_count)
two_counts _ = none

-- The messages that a banner announces, and how many are new.
unfoldable pub parse_banner_counts : Bytes → Option (ℕ × ℕ)
unfolding two_counts
parse_banner_counts capture = elim (strstr capture (codes "*** No messages for ")) [
  | some summary ↦ some (0, 0)
  | none ↦ (elim (strstr capture (codes "*** You have ")) [
    | none ↦ none
    | some summary ↦ two_counts (sscanf summary_format summary)
  ])
]

-- The loop `while ((p = strstr(p, t)) != NULL) { last = p; p++; }`, place by place.
unfoldable pub last_match : Bytes → Option Bytes → Bytes → Option Bytes
last_match t last [] = last
last_match t last (x ∷ s) = last_match t (if starts_with t (x ∷ s) then some (x ∷ s) else last) s

abbrev pub stored_format : List Item
stored_format = text (codes "*** Stored as message ") ++ (number ∷ [])

unfoldable pub first_number : List ℕ → Option ℕ
first_number [] = none
first_number (n ∷ ns) = some n

unfoldable pub parse_stored_message_id : Bytes → Option ℕ
unfolding last_match first_number
parse_stored_message_id capture = elim (last_match (codes "*** Stored as message ") none capture) [
  | none ↦ none
  | some p ↦ first_number (sscanf stored_format p)
]

-- The loop over the places of a line where the token may begin.
unfoldable pub begins_within : Bytes → Bytes → Bool
begins_within t [] = false
begins_within t (x ∷ s) = starts_with t (x ∷ s) || begins_within t s

unfoldable pub line_contains_token : Bytes → Bytes → Bool
unfolding begins_within
line_contains_token line token =
    if length token == 0 || ltb (length line) (length token)
    then false
    else begins_within token line

-- strchr: what is before the byte, and what is behind it; `none` is NULL.
unfoldable pub split_at : ℕ → Bytes → Option (Bytes × Bytes)
split_at c [] = none
split_at c (x ∷ s) = elim (x == c) [
  | true ↦ some ([], s)
  | false ↦ (elim (split_at c s) [ none ↦ none | some (l, r) ↦ some (x ∷ l, r) ])
]

-- The line at the front, and what is behind its end; `none`: the text ends with it.
unfoldable pub split_line : Bytes → Bytes × Option Bytes
unfolding split_at
split_line s = elim (split_at b'\r' s) [
  | some (l, r) ↦ (l, some r)
  | none ↦ (elim (split_at b'\n' s) [ some (l, r) ↦ (l, some r) | none ↦ (s, none) ])
]

-- How many blanks and tabs the line begins with.
unfoldable pub count_blanks : Bytes → ℕ
count_blanks [] = 0
count_blanks (c ∷ s) = if c == 32 || c == 9 then suc (count_blanks s) else 0

unfoldable pub skip_lf : Bytes → Bytes
skip_lf [] = []
skip_lf (c ∷ s) = if c == b'\n' then s else c ∷ s

-- Whether the id is among these.
unfoldable pub is_among : ℕ → List ℕ → Bool
is_among id [] = false
is_among id (i ∷ is) = i == id || is_among id is

unfoldable pub add_id : ℕ → ℕ → List ℕ → List ℕ
unfolding is_among
add_id cap id ids = if not (is_among id ids) && ltb (length ids) cap then ids ++ (id ∷ []) else ids

-- The ids with that of the line at the front of `s`: strtoul reads on from its first byte that is
-- no blank, also past its end.
unfoldable pub take_line_id : Bytes → ℕ → Bytes → Bytes → List ℕ → List ℕ
unfolding add_id count_blanks line_contains_token
take_line_id tag cap s line ids = elim (scan_number (drop (count_blanks line) s)) [
  | none ↦ ids
  | some (id, rest) ↦ if ltb 0 id && line_contains_token line tag then add_id cap id ids else ids
]

-- The loop over the lines; each takes a byte or more.
unfoldable pub collect_loop : ℕ → Bytes → ℕ → Bytes → List ℕ → List ℕ
unfolding take_line_id split_line skip_lf
collect_loop zero tag cap s ids = ids
collect_loop (suc fuel) tag cap [] ids = ids
collect_loop (suc fuel) tag cap (x ∷ s) ids =
    let (line, next) = split_line (x ∷ s) in
    let ids' = take_line_id tag cap (x ∷ s) line ids in
    elim next [ none ↦ ids' | some r ↦ collect_loop fuel tag cap (skip_lf r) ids' ]

unfoldable pub collect_subject_ids : Bytes → Bytes → ℕ → List ℕ
unfolding collect_loop
collect_subject_ids capture tag cap =
    if cap == 0 then [] else collect_loop (length capture) tag cap capture []
