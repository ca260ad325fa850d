-- ===== src/TestBbs/Login.antt =====
-- The SYSOP's login between the two programs: main/sysop_auth.c asks, test_bbs/main/main.c answers.
use esp_tnc.Prelude.{
  ℕ, take, ◌≤◌, ◌<◌, ◌≡◌, ◌≢◌, refl, ◌∙◌, sym, ap, subst, some, List, [], ◌∷◌, ◌++◌, Bytes, Lacks,
  ltb, length, arith, inl, inr, Bool-cases,
}
use esp_tnc.Esp.{esp_ok}
use esp_tnc.Auth.{
  State, success, Issued, start_challenge, issue_with, issue_challenge, submit_response,
}
use esp_tnc.Auth.Challenge.{Generated, refused, running, chosen, generate_challenge_indices}
use esp_tnc.Auth.Drawing.{ArePlaces, generate_challenge_indices_lem}
use esp_tnc.Auth.Matching.{required_bytes}
use esp_tnc.Auth.Counting.{Covers, verify_response_of_Covers}
use esp_tnc.Auth.Steps.{submit_response-success}
use esp_tnc.TestBbs.Parsing.{parse_sysop_challenge, six_bytes, build_sysop_response}
use esp_tnc.TestBbs.Response.{challenge_line, line_whole, parsed, built}

four_places :
    (n : ℕ) (is : List ℕ)
    → ArePlaces n is
    → length is ≡ 4
    → (a : ℕ) × (b : ℕ) × (c : ℕ) × (d : ℕ) × (is ≡ a ∷ b ∷ c ∷ d ∷ [])
      × ArePlaces n (a ∷ b ∷ c ∷ d ∷ [])
four_places n [] v h = absurd (omega arith)
four_places n (a ∷ []) v h = absurd (omega arith)
four_places n (a ∷ b ∷ []) v h = absurd (omega arith)
four_places n (a ∷ b ∷ c ∷ []) v h = absurd (omega arith)
four_places n (a ∷ b ∷ c ∷ d ∷ []) v h = (a, b, c, d, refl, v)
four_places n (a ∷ b ∷ c ∷ d ∷ e ∷ is) v h = absurd (omega arith)

module _ (draws : List ℕ) (now : ℕ) (s : State) where
  issued_by :
      (o : Issued) (g : Generated)
      → generate_challenge_indices (length s.secret) draws ≡ g
      → issue_with now 64 s g ≡ some o
      → o.0 ≡ esp_ok
      → (is : List ℕ) × (generate_challenge_indices (length s.secret) draws ≡ chosen is)
        × (start_challenge now 64 is s ≡ o)
  issued_by o refused found h ok = cc
  issued_by o running found h ok = cc
  issued_by o (chosen is) found h ok = (is, found, ground arith)

  issued_lem :
      (o : Issued)
      → issue_challenge draws now 64 s ≡ some o
      → o.0 ≡ esp_ok
      → (4 ≤ length s.secret)
        × (is : List ℕ) × (generate_challenge_indices (length s.secret) draws ≡ chosen is)
        × (start_challenge now 64 is s ≡ o)
  unfolding issue_challenge
  issued_lem o h ok = elim (Bool-cases (ltb (length s.secret) 4)) [
    | inl few ↦ absurd (ground arith)
    | inr enough ↦
        (let (is, found, same) =
            issued_by o (generate_challenge_indices (length s.secret) draws) refl (ground arith)
              ok in
          (ground arith, is, found, same))
  ]

line-start_challenge :
    (now : ℕ) (is : List ℕ) (s : State)
    → (start_challenge now 64 is s).1 ≡ take 63 (challenge_line is)
unfolding start_challenge
line-start_challenge now is s = refl

-- The state while this challenge is awaited, and its answer.
answered :
    (now now' : ℕ) (is r response : List ℕ) (s : State)
    → required_bytes s.secret is ≡ some r
    → length response ≡ 6
    → Covers response r
    → now' ≤ (start_challenge now 64 is s).3.challenge_expires_ms
    → (submit_response response now' (start_challenge now 64 is s).3).0 ≡ success
unfolding start_challenge
answered now now' is r response s asked six covers in_time =
    let id = (start_challenge now 64 is s).3.active_challenge_id in
    let active : id ≢ 0 = ground arith in
    (submit_response-success response now' (start_challenge now 64 is s).3).1 (
      refl,
      active,
      in_time,
      verify_response_of_Covers s.secret is id response r asked active six covers,
    )

-- A SYSOP whose program knows the secret gets in: whatever challenge `sysop_auth_issue_challenge`
-- puts out, `test_bbs` finds its four indices in a capture with the line in it, behind a text with
-- no 'C', builds the response from the same secret, and `sysop_auth_submit_response` accepts it
-- until the challenge's time has passed.
pub login_lem :
    (pre post : Bytes) (draws : List ℕ) (now now' : ℕ) (s : State) (o : Issued)
    → length s.secret < 65536
    → Lacks b'C' pre
    → issue_challenge draws now 64 s ≡ some o
    → o.0 ≡ esp_ok
    → now' ≤ o.3.challenge_expires_ms
    → (indices : List ℕ) × (response : Bytes) × (parse_sysop_challenge (pre ++ (o.1 ++ post))
        ≡ some indices)
      × (build_sysop_response s.secret indices ≡ some response)
      × ((submit_response response now' o.3).0 ≡ success)
login_lem pre post draws now now' s o small before issued ok in_time =
    let (enough, is, found, same) = issued_lem draws now s o issued ok in
    let (places, as_many) = generate_challenge_indices_lem (length s.secret) draws is small found in
    let (a, b, c, d, split, places') = four_places (length s.secret) is places as_many in
    let (r, asked, made, six, covers) = built a b c d s.secret enough small places' in
    let four = a ∷ b ∷ c ∷ d ∷ [] in
    let begun : start_challenge now 64 four s ≡ o =
      ap (λ l. start_challenge now 64 l s) (sym split) ∙ same in
    let line : o.1 ≡ challenge_line four =
      ap (λ p. p.1) (sym begun)
      ∙ line-start_challenge now four s
      ∙ line_whole a b c d s.secret enough small places' in
    (
      a ∷ b ∷ c ∷ d ∷ [],
      six_bytes r,
      ap (λ l. parse_sysop_challenge (pre ++ (l ++ post))) line
          ∙ parsed a b c d s.secret enough small places' pre post before,
      made,
      subst
          (λ p.
            now' ≤ p.3.challenge_expires_ms → (submit_response (six_bytes r) now' p.3).0 ≡ success)
          begun (answered now now' four r (six_bytes r) s asked six covers) in_time,
    )
