-- ===== src/Bbs/Grammar.antt =====
-- main/bbs.c: what `bbs_is_valid_callsign` and the comparison of commands accept.
use esp_tnc.Prelude.{
  ℕ, suc, ◌≤◌, ◌≡◌, ◌↔◌, refl, ◌∙◌, ap, Bool, true, false, ◌||◌, [], ◌∷◌, ◌++◌, Bytes, ltb,
  if◌then◌else◌, is_digit, is_empty, length, map, append-nil, arith, inl, inr, Bool-cases,
}
use esp_tnc.Bbs.Callsign.{
  upper, equals_ignore_case_ascii, base_callsign, is_letter, letters, is_suffix, is_digit_suffix,
  is_valid_callsign,
}

-- Two texts are taken for the same exactly when they differ in nothing but the case of letters.
pub equals_ignore_case_iff :
    (s t : Bytes) → (equals_ignore_case_ascii s t ≡ true) ↔ (map upper s ≡ map upper t)
unfolding equals_ignore_case_ascii
equals_ignore_case_iff [] [] = (λ h. refl, λ h. refl)
equals_ignore_case_iff [] (y ∷ t) = (λ h. ground arith, λ h. ground arith)
equals_ignore_case_iff (x ∷ s) [] = (λ h. ground arith, λ h. ground arith)
equals_ignore_case_iff (x ∷ s) (y ∷ t) = (
  λ h. ground (arith, equals_ignore_case_iff s t),
  λ h. ground (arith, equals_ignore_case_iff s t),
)

abbrev pub AllLetters : Bytes → Type 0
AllLetters [] = Unit
AllLetters (c ∷ s) = (is_letter c ≡ true) × AllLetters s

-- A prefix of one or two letters, a digit, a suffix of one to three letters.
pub record IsCallsign (base : Bytes) : Type 0 where
  pub prefix : Bytes
  pub digit : ℕ
  pub suffix : Bytes
  pub whole : base ≡ prefix ++ (digit ∷ suffix)
  pub prefix_letters : AllLetters prefix
  pub suffix_letters : AllLetters suffix
  pub is_a_digit : is_digit digit ≡ true
  pub prefix_length : (1 ≤ length prefix) × (length prefix ≤ 2)
  pub suffix_length : (1 ≤ length suffix) × (length suffix ≤ 3)

-- What `letters` splits off.
pub letters_split :
    (s : Bytes) → (p : Bytes) × AllLetters p × (length p ≡ (letters s).0) × (s ≡ p ++ (letters s).1)
unfolding letters
letters_split [] = ([], tt, refl, refl)
letters_split (c ∷ s) = elim (Bool-cases (is_letter c)) [
  | inl is ↦
      (let (p, all, len, whole) = letters_split s in
        (c ∷ p, (is, all), rw (is, letters) (ap suc len), rw (is, letters) (ap (λ l. c ∷ l) whole)))
  | inr other ↦ ([], tt, rw (other, letters) refl, rw (other, letters) refl)
]

-- The letters before a byte that is none are all split off.
pub letters-append :
    (p : Bytes) (c : ℕ) (s : Bytes)
    → AllLetters p
    → is_letter c ≡ false
    → letters (p ++ (c ∷ s)) ≡ (length p, c ∷ s)
unfolding letters
letters-append [] c s all stop = rw (stop, letters) refl
letters-append (x ∷ p) c s all stop =
    rw (all.0, letters) (ap (λ r. (suc r.0, r.1)) (letters-append p c s all.1 stop))

pub letters_all : (s : Bytes) → AllLetters s → letters s ≡ (length s, [])
unfolding letters
letters_all [] all = refl
letters_all (c ∷ s) all = rw (all.0, letters) (ap (λ r. (suc r.0, r.1)) (letters_all s all.1))

-- The test once the SSID is cut off.
abbrev accepts : Bytes → Bool
accepts base =
    if ltb (letters base).0 1 || ltb 2 (letters base).0
    then false
    else is_digit_suffix (letters base).1

empty_of : (s : Bytes) → is_empty s ≡ true → s ≡ []
empty_of [] h = refl
empty_of (c ∷ s) h = ground arith

abbrev Suffix : Bytes → Type 0
Suffix s = AllLetters s × (1 ≤ length s) × (length s ≤ 3)

is_suffix_sound : (s : Bytes) → is_suffix s ≡ true → Suffix s
unfolding is_suffix
is_suffix_sound s h =
    let (p, all, len, whole) = letters_split s in
    let none_left : (letters s).1 ≡ [] = empty_of (letters s).1 (ground arith) in
    let same : s ≡ p = whole ∙ ap (λ r. p ++ r) none_left ∙ append-nil p in
    rw same (all, ground arith, ground arith)

is_suffix_complete : (s : Bytes) → Suffix s → is_suffix s ≡ true
unfolding is_suffix
is_suffix_complete s (all, low, high) = rw (letters_all s all) (ground arith)

accepts_sound : (base : Bytes) → accepts base ≡ true → IsCallsign base
unfolding is_digit_suffix
accepts_sound base h =
    let (p, all, len, whole) = letters_split base in
    let low : 1 ≤ length p = ground arith in
    let high : length p ≤ 2 = ground arith in
    let rest : is_digit_suffix (letters base).1 ≡ true = ground arith in
    from p all low high (letters base).1 whole rest
  where
    from :
        (p : Bytes)
        → AllLetters p
        → 1 ≤ length p
        → length p ≤ 2
        → (rest : Bytes) → base ≡ p ++ rest
        → is_digit_suffix rest ≡ true
        → IsCallsign base
    from p all low high [] whole ok = ground arith
    from p all low high (d ∷ s) whole ok =
        let (letters_s, low_s, high_s) = is_suffix_sound s (ground arith) in
        record {
          prefix = p;
          digit = d;
          suffix = s;
          whole = whole;
          prefix_letters = all;
          suffix_letters = letters_s;
          is_a_digit = ground arith;
          prefix_length = (low, high);
          suffix_length = (low_s, high_s);
        }

accepts_complete : (base : Bytes) → IsCallsign base → accepts base ≡ true
unfolding is_digit_suffix
accepts_complete base c =
    let split = letters-append c.prefix c.digit c.suffix c.prefix_letters (ground arith) in
    let ok = is_suffix_complete c.suffix (c.suffix_letters, c.suffix_length.0, c.suffix_length.1) in
    rw (c.whole, split) (ground arith)

-- A callsign is valid exactly when what comes before its SSID, in capitals and cut to six bytes, is
-- a prefix of one or two letters, a digit and a suffix of one to three letters.
pub is_valid_callsign_iff :
    (str : Bytes) → (is_valid_callsign str ≡ true) ↔ IsCallsign (base_callsign 7 str)
unfolding is_valid_callsign
is_valid_callsign_iff str =
    (accepts_sound (base_callsign 7 str), accepts_complete (base_callsign 7 str))
