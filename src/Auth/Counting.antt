-- ===== src/Auth/Counting.antt =====
-- What response `sysop_verify_response` accepts: one that holds the required bytes, each as often.
use esp_tnc.Prelude.{
  ℕ, zero, suc, ◌+◌, ◌≤◌, ◌≡◌, ◌≢◌, ◌↔◌, refl, sym, ◌∙◌, ◌-◌, get_or, Bool, true, false, none, some,
  List, [], ◌∷◌, Bytes, ◌==◌, if◌then◌else◌, length, set, arith, inl, inr, Option-cases,
}
use esp_tnc.Auth.Matching.{required_bytes, find_unused, match_all, unused, verify_response}

-- How often `c` occurs.
unfoldable pub count : ℕ → Bytes → ℕ
count c [] = 0
count c (x ∷ xs) = if x == c then suc (count c xs) else count c xs

-- The bytes of the response that are not used.
remaining : Bytes → List Bool → Bytes
remaining [] us = []
remaining (x ∷ xs) [] = []
remaining (x ∷ xs) (true ∷ us) = remaining xs us
remaining (x ∷ xs) (false ∷ us) = x ∷ remaining xs us

find_unused-none :
    (c : ℕ) (xs : Bytes) (us : List Bool)
    → find_unused c xs us ≡ none
    → count c (remaining xs us) ≡ 0
unfolding find_unused remaining count
find_unused-none c [] us h = refl
find_unused-none c (x ∷ xs) [] h = refl
find_unused-none c (x ∷ xs) (true ∷ us) h = find_unused-none c xs us (ground arith)
find_unused-none c (x ∷ xs) (false ∷ us) h = ground (arith, find_unused-none c xs us)

-- Using a byte up takes one occurrence away.
find_unused-some :
    (c d j : ℕ) (xs : Bytes) (us : List Bool)
    → find_unused c xs us ≡ some j
    → count d (remaining xs us) ≡ (if c == d then 1 else 0) + count d (remaining xs (set us j true))
unfolding find_unused remaining count
find_unused-some c d j [] us h = absurd (ground arith)
find_unused-some c d j (x ∷ xs) [] h = absurd (ground arith)
find_unused-some c d zero (x ∷ xs) (true ∷ us) h = absurd (ground arith)
find_unused-some c d (suc j) (x ∷ xs) (true ∷ us) h = find_unused-some c d j xs us (ground arith)
find_unused-some c d zero (x ∷ xs) (false ∷ us) h = ground arith
find_unused-some c d (suc j) (x ∷ xs) (false ∷ us) h = ground (arith, find_unused-some c d j xs us)

-- Every byte occurs in `r` as often as in `cs`, or more.
abbrev pub Covers : Bytes → Bytes → Type 0
Covers r cs = (d : ℕ) → count d cs ≤ count d r

module _ (c : ℕ) (cs xs : Bytes) (us : List Bool) where
  match_all-none : find_unused c xs us ≡ none → match_all (c ∷ cs) xs us ≡ false
  unfolding match_all
  match_all-none h = rw (h, match_all) refl

  match_all-some :
      (j : ℕ)
      → find_unused c xs us ≡ some j
      → match_all (c ∷ cs) xs us ≡ match_all cs xs (set us j true)
  unfolding match_all
  match_all-some j h = rw (h, match_all) refl

match_all_sound :
    (cs xs : Bytes) (us : List Bool) → match_all cs xs us ≡ true → Covers (remaining xs us) cs
unfolding count
match_all_sound [] xs us h d = omega arith
match_all_sound (c ∷ cs) xs us h d = elim (Option-cases (find_unused c xs us)) [
  | inl missing ↦ cc (match_all-none c cs xs us missing)
  | inr (j, at) ↦
      (let rest =
          match_all_sound cs xs (set us j true) (rw (match_all-some c cs xs us j at) at h) d in
        ground (arith, find_unused-some c d j xs us at, rest))
]

match_all_complete :
    (cs xs : Bytes) (us : List Bool) → Covers (remaining xs us) cs → match_all cs xs us ≡ true
match_all_complete [] xs us h = unfold match_all in refl
match_all_complete (c ∷ cs) xs us h = elim (Option-cases (find_unused c xs us)) [
  | inl missing ↦ absurd (unfold count in ground (arith, h c, find_unused-none c xs us missing))
  | inr (j, at) ↦ rw (match_all-some c cs xs us j at) (
      match_all_complete cs xs (set us j true)
        (λ d. unfold count in ground (arith, h d, find_unused-some c d j xs us at)))
]

remaining-unused : (xs : Bytes) → length xs ≡ 6 → remaining xs unused ≡ xs
unfolding remaining
remaining-unused [] h = refl
remaining-unused (a ∷ []) h = absurd (omega arith)
remaining-unused (a ∷ b ∷ []) h = absurd (omega arith)
remaining-unused (a ∷ b ∷ c ∷ []) h = absurd (omega arith)
remaining-unused (a ∷ b ∷ c ∷ d ∷ []) h = absurd (omega arith)
remaining-unused (a ∷ b ∷ c ∷ d ∷ e ∷ []) h = absurd (omega arith)
remaining-unused (a ∷ b ∷ c ∷ d ∷ e ∷ f ∷ []) h = refl
remaining-unused (a ∷ b ∷ c ∷ d ∷ e ∷ f ∷ g ∷ xs) h = absurd (omega arith)

-- The bytes of the secret at these places, counted from 1.
unfoldable pub bytes_at : Bytes → List ℕ → Bytes
bytes_at secret [] = []
bytes_at secret (idx ∷ is) = get_or secret (idx - 1) 0 ∷ bytes_at secret is

abbrev pub AllNonzero : List ℕ → Type 0
AllNonzero [] = Unit
AllNonzero (idx ∷ is) = (idx ≢ 0) × AllNonzero is

required_bytes-bytes_at :
    (secret : Bytes) (is : List ℕ)
    → AllNonzero is
    → required_bytes secret is ≡ some (bytes_at secret is)
unfolding required_bytes bytes_at
required_bytes-bytes_at secret [] h = refl
required_bytes-bytes_at secret (idx ∷ is) h =
    let counted : (idx == 0) ≡ false = ground arith in
    rw (counted, required_bytes-bytes_at secret is h.1) refl

AllNonzero-required_bytes :
    (secret required : Bytes) (is : List ℕ)
    → required_bytes secret is ≡ some required
    → AllNonzero is
unfolding required_bytes
AllNonzero-required_bytes secret required [] h = tt
AllNonzero-required_bytes secret required (idx ∷ is) h =
    elim (Option-cases (required_bytes secret is)) [
      | inl zero_behind ↦ absurd (ground arith)
      | inr (rest, asked) ↦ (ground arith, AllNonzero-required_bytes secret rest is asked)
    ]

verify_response-asked :
    (secret : Bytes) (indices : List ℕ) (id : ℕ) (response : Bytes)
    → verify_response secret indices id response ≡ true
    → (required : Bytes) × (required_bytes secret indices ≡ some required)
unfolding verify_response
verify_response-asked secret indices id response h =
    elim (Option-cases (required_bytes secret indices)) [
      | inl zero_index ↦ absurd (ground arith)
      | inr asked ↦ asked
    ]

verify_response-guards :
    (secret : Bytes) (indices : List ℕ) (id : ℕ) (response : Bytes)
    → verify_response secret indices id response ≡ true
    → (id ≢ 0) × (length response ≡ 6)
unfolding verify_response
verify_response-guards secret indices id response h = (ground arith, ground arith)

verify_response-match_all :
    (secret : Bytes) (indices : List ℕ) (id : ℕ) (response required : Bytes)
    → required_bytes secret indices ≡ some required
    → id ≢ 0
    → length response ≡ 6
    → verify_response secret indices id response ≡ match_all required response unused
unfolding verify_response
verify_response-match_all secret indices id response required asked active six = ground arith

pub verify_response_of_Covers :
    (secret : Bytes) (indices : List ℕ) (id : ℕ) (response required : Bytes)
    → required_bytes secret indices ≡ some required
    → id ≢ 0
    → length response ≡ 6
    → Covers response required
    → verify_response secret indices id response ≡ true
verify_response_of_Covers secret indices id response required asked active six covers =
    verify_response-match_all secret indices id response required asked active six
    ∙ match_all_complete required response unused (rw (remaining-unused response six) covers)

-- A response is accepted exactly when a challenge is active, none of its indices is 0, the response
-- has six bytes, and every byte occurs in it at least as often as among the bytes of the secret at
-- the indices, counted from 1.
pub verify_response_iff :
    (secret : Bytes) (indices : List ℕ) (id : ℕ) (response : Bytes)
    → (verify_response secret indices id response ≡ true) ↔ (
        (id ≢ 0)
        × AllNonzero indices
        × (length response ≡ 6)
        × Covers response (bytes_at secret indices))
verify_response_iff secret indices id response = (to, from)
  where
    matches :
        AllNonzero indices
        → id ≢ 0
        → length response ≡ 6
        → verify_response secret indices id response
          ≡ match_all (bytes_at secret indices) response unused
    matches counted active six =
        verify_response-match_all secret indices id response (bytes_at secret indices)
          (required_bytes-bytes_at secret indices counted) active six

    to :
        verify_response secret indices id response ≡ true
        → (id ≢ 0)
          × AllNonzero indices
          × (length response ≡ 6)
          × Covers response (bytes_at secret indices)
    to h =
        let (active, six) = verify_response-guards secret indices id response h in
        let (required, asked) = verify_response-asked secret indices id response h in
        let counted = AllNonzero-required_bytes secret required indices asked in
        (
          active,
          counted,
          six,
          rw (remaining-unused response six) at (
              match_all_sound (bytes_at secret indices) response unused
                (sym (matches counted active six) ∙ h)),
        )

    from :
        (id ≢ 0)
          × AllNonzero indices
          × (length response ≡ 6)
          × Covers response (bytes_at secret indices)
        → verify_response secret indices id response ≡ true
    from (active, counted, six, covers) =
        verify_response_of_Covers secret indices id response (bytes_at secret indices)
          (required_bytes-bytes_at secret indices counted) active six covers
