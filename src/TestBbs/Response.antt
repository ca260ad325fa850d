-- ===== src/TestBbs/Response.antt =====
-- test_bbs/main/main.c: what the program makes of a challenge of main/sysop_auth.c.
use esp_tnc.Prelude.{
  ℕ, zero, suc, ◌-◌, ◌*◌, take, ◌%◌, ◌≤◌, ◌<◌, ◌≡◌, refl, ◌∙◌, ap, false, some, List, [], ◌∷◌, ◌++◌,
  Bytes, codes, strstr, strstr-append, strstr_skip, Lacks, ltb, length, take_all, length-append,
  length-digits, decimal, append_assoc, get_or, arith,
}
use esp_tnc.Bbs.Scanning.{skip_spaces}
use esp_tnc.Scanf.{Item, space, number, starts_digit, sscanf, sscanf-space_number}
use esp_tnc.Bbs.Sending.{cr}
use esp_tnc.Auth.{numbers}
use esp_tnc.Auth.Drawing.{ArePlaces}
use esp_tnc.Auth.Matching.{required_bytes}
use esp_tnc.Auth.Counting.{count, Covers}
use esp_tnc.TestBbs.Parsing.{
  four_indices, parse_sysop_challenge, challenge_format, required_of, six_bytes,
  build_sysop_response,
}

-- The line of a challenge, without the cut to the buffer.
abbrev pub challenge_line : List ℕ → Bytes
challenge_line is = codes "CHAL" ++ (numbers is ++ cr)

length-numbers : (is : List ℕ) → length (numbers is) ≤ length is * 11
length-numbers [] = omega arith
length-numbers (i ∷ is) =
    rw (length-append (decimal i)) (omega (arith, length-digits 10 i [], length-numbers is))

-- A space and a number, so many times.
abbrev items : ℕ → List Item
items zero = []
items (suc n) = space ∷ number ∷ items n

no_digit :
    (is : List ℕ) (t : Bytes) → starts_digit t ≡ false → starts_digit (numbers is ++ t) ≡ false
no_digit [] t h = h
no_digit (i ∷ is) t h = refl

numbers_read :
    (len : ℕ) (is : List ℕ) (t : Bytes)
    → len < 65536
    → ArePlaces len is
    → starts_digit t ≡ false
    → sscanf (items (length is)) (numbers is ++ t) ≡ is
numbers_read len [] t small places stop = unfold sscanf in refl
numbers_read len (i ∷ is) t small places stop =
    ap (λ s. sscanf (items (length (i ∷ is))) (32 ∷ s)) (append_assoc (decimal i) (numbers is) t)
    ∙ sscanf-space_number (items (length is)) i (numbers is ++ t) (omega (arith, places))
        (no_digit is t stop)
    ∙ ap (λ ns. i ∷ ns) (numbers_read len is t small places.3 stop)

-- Both programs take the same bytes of the secret.
required_of_places :
    (secret : Bytes) (is : List ℕ)
    → ArePlaces (length secret) is
    → (r : Bytes) × (required_bytes secret is ≡ some r)
      × (required_of secret is ≡ some r)
      × (length r ≡ length is)
unfolding required_bytes required_of
required_of_places secret [] places = ([], refl, refl, refl)
required_of_places secret (i ∷ is) places =
    let (r, asked, made, as_many) = required_of_places secret is places.3 in
    let lo : 1 ≤ i = places.0 in
    let hi : i ≤ length secret = places.1 in
    (
      get_or secret (i - 1) 0 ∷ r,
      ground (arith, asked),
      ground (arith, made),
      omega (arith, as_many),
    )

six_bytes-Covers : (r : Bytes) → length r ≡ 4 → Covers (six_bytes r) r
unfolding six_bytes
six_bytes-Covers [] h = absurd (omega arith)
six_bytes-Covers (a ∷ []) h = absurd (omega arith)
six_bytes-Covers (a ∷ b ∷ []) h = absurd (omega arith)
six_bytes-Covers (a ∷ b ∷ c ∷ []) h = absurd (omega arith)
six_bytes-Covers (a ∷ b ∷ c ∷ d ∷ []) h = λ x. unfold count in ground arith
six_bytes-Covers (a ∷ b ∷ c ∷ d ∷ e ∷ r) h = absurd (omega arith)

-- What the program makes of the challenge for these four places.
module _ (a b c d : ℕ) (secret : Bytes) (enough : 4 ≤ length secret) (small : length secret < 65536)
    (places : ArePlaces (length secret) (a ∷ b ∷ c ∷ d ∷ [])) where
  abbrev four : List ℕ
  four = a ∷ b ∷ c ∷ d ∷ []

  pub line_whole : take 63 (challenge_line four) ≡ challenge_line four
  line_whole = take_all 63 (challenge_line four) fits
    where
      fits : length (challenge_line four) ≤ 63
      fits = rw (length-append (numbers four) cr) (omega (arith, length-numbers four))

  pub parsed :
      (pre post : Bytes)
      → Lacks b'C' pre
      → parse_sysop_challenge (pre ++ (challenge_line four ++ post)) ≡ some four
  parsed pre post before =
      unfold parse_sysop_challenge in
      rw (found, parse_sysop_challenge) (ap four_indices read ∙ same)
    where
      found :
          strstr (pre ++ (challenge_line four ++ post)) (codes "CHAL ")
          ≡ some (challenge_line four ++ post)
      found =
          strstr_skip b'C' (codes "HAL ") pre (challenge_line four ++ post) before
          ∙ strstr-append (codes "CHAL ") (((decimal a ++ numbers (b ∷ c ∷ d ∷ [])) ++ cr) ++ post)

      to_numbers :
          sscanf challenge_format (challenge_line four ++ post)
          ≡ sscanf (items 4) ((numbers four ++ cr) ++ post)
      to_numbers = unfold sscanf in unfold skip_spaces in refl

      read : sscanf challenge_format (challenge_line four ++ post) ≡ four
      read =
          to_numbers
          ∙ ap (λ s. sscanf (items 4) s) (append_assoc (numbers four) cr post)
          ∙ numbers_read (length secret) four (cr ++ post) small places refl

      kept : (i : ℕ) → i ≤ length secret → i % 65536 ≡ i
      kept i h = omega arith

      same : four_indices four ≡ some four
      same =
          unfold four_indices in
          rw
            (
              kept a (omega arith),
              kept b (omega (arith, places)),
              kept c (omega (arith, places)),
              kept d (omega (arith, places)),
            )
            refl

  -- The response, and the bytes that are asked for, each as often in it as here.
  pub built :
      (r : Bytes) × (required_bytes secret four ≡ some r)
      × (build_sysop_response secret four ≡ some (six_bytes r))
      × (length (six_bytes r) ≡ 6)
      × Covers (six_bytes r) r
  unfolding build_sysop_response six_bytes
  built =
      let (r, asked, made, four_bytes) = required_of_places secret four places in
      let enough : ltb (length secret) 4 ≡ false = ground arith in
      (
        r,
        asked,
        rw (enough, build_sysop_response) (rw (made, build_sysop_response) refl),
        refl,
        six_bytes-Covers r four_bytes,
      )
