-- ===== src/TestMessage/Bodies.antt =====
-- test_message/main/main.c: the bodies of the messages, and their check when they are read.
use esp_tnc.Prelude.{
  ℕ, zero, suc, ◌+◌, ◌-◌, ◌%◌, ◌≤◌, ◌<◌, ◌≡◌, refl, ◌∙◌, sym, ap, Bool, true, false, ◌&&◌, none,
  some, List, [], ◌∷◌, ◌++◌, Bytes, codes, starts_with, strstr, strstr-append, ltb, if◌then◌else◌,
  length, take, drop, get_or, length-append, length-drop, take-append-drop, ◌↔◌, arith, inl, inr,
  Bool-cases,
}
use esp_tnc.Scanf.{number, text, sscanf}
use esp_tnc.TestBbs.Parsing.{capture_contains, first_number}

-- The limit that the board announces, or 0.
unfoldable pub parse_body_limit : Bytes → ℕ
parse_body_limit capture = elim (strstr capture (codes "Max message size: ")) [
  | none ↦ 0
  | some p ↦ (elim (first_number (sscanf (text (codes "Max message size: ") ++ (number ∷ [])) p)) [
    | none ↦ 0
    | some limit ↦ limit
  ])
]

-- `body_max` is CONFIG_TEST_MSG_MAX_BODY_SIZE, `limit` the board's.
unfoldable pub effective_body_max : ℕ → ℕ → ℕ
effective_body_max body_max limit = if ltb 0 limit && ltb limit body_max then limit else body_max

abbrev pub charset : Bytes
charset = codes "ABCDEFGHIJKLMNOPQRSTUVWXYZ0123456789 "

-- So many bytes, for the random numbers from the `i`-th on.
unfoldable pub random_bytes : (ℕ → ℕ) → ℕ → ℕ → Bytes
random_bytes random zero i = []
random_bytes random (suc n) i = get_or charset (random i % 37) 0 ∷ random_bytes random n (suc i)

-- `random i` is what the `i`-th call of esp_random returns.
unfoldable pub generate_random_body : (ℕ → ℕ) → ℕ → Bytes
unfolding random_bytes
generate_random_body random max_len =
    let max = if ltb max_len 100 then 100 else max_len in
    random_bytes random (100 + random 0 % (max - 100 + 1)) 1

-- The pieces of 64 bytes, the last one shorter; the fuel is the length.
unfoldable pub pieces : ℕ → Bytes → List Bytes
pieces zero s = []
pieces (suc fuel) [] = []
pieces (suc fuel) (x ∷ s) = take 64 (x ∷ s) ∷ pieces fuel (drop 64 (x ∷ s))

unfoldable pub body_lines : Bytes → List Bytes
unfolding pieces
body_lines body = pieces (length body) body

-- Whether the capture contains every line; the first that is missing decides.
unfoldable pub all_found : Bytes → List Bytes → Bool
all_found capture [] = true
all_found capture (l ∷ ls) = if capture_contains capture l then all_found capture ls else false

strstr_here : (x : ℕ) (s t : Bytes) → starts_with t (x ∷ s) ≡ true → strstr (x ∷ s) t ≡ some (x ∷ s)
unfolding strstr
strstr_here x s t h = rw (h, strstr) refl

strstr_later : (x : ℕ) (s t : Bytes) → starts_with t (x ∷ s) ≡ false → strstr (x ∷ s) t ≡ strstr s t
unfolding strstr
strstr_later x s t h = rw (h, strstr) refl

contains_later :
    (x : ℕ) (s t : Bytes)
    → starts_with t (x ∷ s) ≡ false
    → capture_contains (x ∷ s) t ≡ capture_contains s t
unfolding capture_contains
contains_later x s t h = rw (strstr_later x s t h, capture_contains) refl

-- What stands in a capture is found.
contains-append : (pre t post : Bytes) → capture_contains (pre ++ (t ++ post)) t ≡ true
unfolding capture_contains
contains-append [] t post = rw (strstr-append t post, capture_contains) refl
contains-append (x ∷ pre) t post =
    let s = pre ++ (t ++ post) in
    elim (Bool-cases (starts_with t (x ∷ s))) [
      | inl here ↦ rw (strstr_here x s t here, capture_contains) refl
      | inr later ↦ rw (strstr_later x s t later, capture_contains) (contains-append pre t post)
    ]

-- The text stands somewhere in this one.
abbrev pub Occurs : Bytes → Bytes → Type 0
Occurs t s = (pre : Bytes) × (post : Bytes) × (s ≡ pre ++ (t ++ post))

starts_with_sound : (t s : Bytes) → starts_with t s ≡ true → (post : Bytes) × (s ≡ t ++ post)
unfolding starts_with
starts_with_sound [] s h = (s, refl)
starts_with_sound (y ∷ t) [] h = absurd (ground arith)
starts_with_sound (y ∷ t) (x ∷ s) h =
    let (post, same) = starts_with_sound t s (ground arith) in
    let first : x ≡ y = ground arith in (post, rw (first, same) refl)

contains_sound : (s t : Bytes) → capture_contains s t ≡ true → Occurs t s
contains_sound [] t h = elim (Bool-cases (starts_with t [])) [
  | inl here ↦ (let (post, same) = starts_with_sound t [] here in ([], post, same))
  | inr none_there ↦ absurd (unfold capture_contains in unfold strstr in ground (arith, none_there))
]
contains_sound (x ∷ s) t h = elim (Bool-cases (starts_with t (x ∷ s))) [
  | inl here ↦ (let (post, same) = starts_with_sound t (x ∷ s) here in ([], post, same))
  | inr later ↦
      (let (pre, post, same) = contains_sound s t (sym (contains_later x s t later) ∙ h) in
        (x ∷ pre, post, ap (λ l. x ∷ l) same))
]

-- Each line stands somewhere in the text.
abbrev pub AllOccur : List Bytes → Bytes → Type 0
AllOccur [] s = Unit
AllOccur (l ∷ ls) s = Occurs l s × AllOccur ls s

all_found_sound : (s : Bytes) (ls : List Bytes) → all_found s ls ≡ true → AllOccur ls s
unfolding all_found
all_found_sound s [] h = tt
all_found_sound s (l ∷ ls) h =
    (contains_sound s l (ground arith), all_found_sound s ls (ground arith))

all_found_complete : (s : Bytes) (ls : List Bytes) → AllOccur ls s → all_found s ls ≡ true
unfolding all_found
all_found_complete s [] h = refl
all_found_complete s (l ∷ ls) ((pre, post, same), h) =
    let found : capture_contains s l ≡ true = rw same (contains-append pre l post) in
    rw found (all_found_complete s ls h)

pub all_found_iff : (s : Bytes) (ls : List Bytes) → (all_found s ls ≡ true) ↔ AllOccur ls s
all_found_iff s ls = (all_found_sound s ls, all_found_complete s ls)

abbrev pub join : List Bytes → Bytes
join [] = []
join (l ∷ ls) = l ++ join ls

-- Lines of 64 bytes, but for the last one, which has 1 to 64.
abbrev pub AreLines : List Bytes → Type 0
AreLines [] = Unit
AreLines (l ∷ []) = (1 ≤ length l) × (length l ≤ 64)
AreLines (l ∷ m ∷ ls) = (length l ≡ 64) × AreLines (m ∷ ls)

AreLines-step :
    (l d : Bytes) (fuel : ℕ)
    → length d ≤ fuel
    → 1 ≤ length l
    → length l ≤ 64
    → (0 < length d → length l ≡ 64)
    → AreLines (pieces fuel d)
    → AreLines (l ∷ pieces fuel d)
unfolding pieces
AreLines-step l [] zero enough low high full rest = (low, high)
AreLines-step l [] (suc fuel) enough low high full rest = (low, high)
AreLines-step l (x ∷ d) zero enough low high full rest = absurd (omega arith)
AreLines-step l (x ∷ d) (suc fuel) enough low high full rest = (full (omega arith), rest)

pieces_lem :
    (fuel : ℕ) (s : Bytes) → length s ≤ fuel → (join (pieces fuel s) ≡ s) × AreLines (pieces fuel s)
unfolding pieces
pieces_lem zero [] h = (refl, tt)
pieces_lem zero (x ∷ s) h = absurd (omega arith)
pieces_lem (suc fuel) [] h = (refl, tt)
pieces_lem (suc fuel) (x ∷ s) h =
    let l = take 64 (x ∷ s) in
    let d = drop 64 (x ∷ s) in
    let size : length l + length d ≡ length (x ∷ s) =
      sym (length-append l d) ∙ ap (λ t. length t) (take-append-drop 64 (x ∷ s)) in
    let behind : length d ≡ length (x ∷ s) - 64 = length-drop 64 (x ∷ s) in
    let (whole, lines) = pieces_lem fuel d (omega (arith, behind)) in
    (
      ap (λ t. l ++ t) whole ∙ take-append-drop 64 (x ∷ s),
      AreLines-step l d fuel (omega (arith, behind)) (omega (arith, size, behind))
          (omega (arith, size, behind)) (λ more. omega (arith, size, behind)) lines,
    )

pub body_lines_lem : (body : Bytes) → (join (body_lines body) ≡ body) × AreLines (body_lines body)
unfolding body_lines
body_lines_lem body = pieces_lem (length body) body (omega arith)

length-random_bytes : (random : ℕ → ℕ) (n i : ℕ) → length (random_bytes random n i) ≡ n
unfolding random_bytes
length-random_bytes random zero i = refl
length-random_bytes random (suc n) i = ap suc (length-random_bytes random n (suc i))

length_bounds :
    (random : ℕ → ℕ) (bound max_len : ℕ)
    → 100 ≤ bound
    → max_len ≤ bound
    → (100 ≤ length (generate_random_body random max_len))
      × (length (generate_random_body random max_len) ≤ bound)
unfolding generate_random_body
length_bounds random bound max_len big fits =
    let max = if ltb max_len 100 then 100 else max_len in
    let low : 100 ≤ max = ground arith in
    let high : max ≤ bound = ground arith in
    let size = length-random_bytes random (100 + random 0 % (max - 100 + 1)) 1 in
    let rest : random 0 % (max - 100 + 1) < max - 100 + 1 = grind arith in
    (omega (arith, size), omega (arith, size, rest))

-- A random body has 100 bytes or more, and fits the buffer for bodies, whose size is 100 or more.
pub length-generate_random_body :
    (random : ℕ → ℕ) (body_max limit : ℕ)
    → 100 ≤ body_max
    → (100 ≤ length (generate_random_body random (effective_body_max body_max limit)))
      × (length (generate_random_body random (effective_body_max body_max limit)) ≤ body_max)
length-generate_random_body random body_max limit big =
    length_bounds random body_max (effective_body_max body_max limit) big
      (unfold effective_body_max in ground arith)
