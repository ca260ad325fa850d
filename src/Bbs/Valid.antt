-- ===== src/Bbs/Valid.antt =====
-- main/bbs.c: the invariant of the session, kept where a challenge is issued and where a session
-- expires.
use esp_tnc.Prelude.{
  ℕ, ◌<◌, ◌≡◌, ◌≢◌, refl, ◌∙◌, sym, ap, Bool, true, false, some, List, Bytes, if◌then◌else◌, length,
  arith, inl, inr, Bool-cases, Option-cases,
}
use esp_tnc.Auth.{
  Mode, awaiting_response, authenticated, locked_out, State, Verdict, success, failed, lockout,
  expired, no_active, Issued, is_awaiting_response, is_authenticated, issue_challenge,
  submit_response, expire_authenticated_if_idle, take_deferred_config, take_deferred_console,
  set_deferred_config, set_deferred_console,
}
use esp_tnc.Auth.Session.{expire-IsValid, issue_challenge-IsValid}
use esp_tnc.Auth.Modes.{expire-modes, issue_challenge-modes}
use esp_tnc.Bbs.Outside.{Platform}
use esp_tnc.Bbs.State.{InputMode, command, sysop_response, config, terminal, Bbs}
use esp_tnc.Bbs.Sysop.{show_challenge, sysop_issue_challenge, sysop_expire_authenticated_if_idle}

-- The modes that are the sysop's.
abbrev pub is_privileged : InputMode → Bool
is_privileged config = true
is_privileged terminal = true
is_privileged _ = false

abbrev pub is_response : InputMode → Bool
is_response sysop_response = true
is_response _ = false

-- What holds between the fields, whatever has been received.
pub record Holds (sysop : Bool) (mode : InputMode) (auth : State) (line text : Bytes) : Type 0 where
  -- The user is the sysop exactly when authenticated.
  pub is_login : sysop ≡ is_authenticated auth
  -- The configuration and the TNC are the sysop's.
  pub privileged : is_privileged mode ≡ true → sysop ≡ true
  -- The next line is taken for a response exactly when one is awaited.
  pub waiting : is_response mode ≡ is_awaiting_response auth
  pub auth_valid : esp_tnc.Auth.Session.IsValid auth
  -- The NUL fits behind the line, and a CR and the NUL behind the body.
  pub line_fits : length line < 256
  pub body_fits : length text < 4096

abbrev pub IsValid : {C : Type 0} → Bbs C → Type 0
IsValid b = Holds b.is_sysop b.input_mode b.sysop_auth b.line_buf b.pending_body

pub if-IsValid :
    {C : Type 0} (c : Bool) (x y : Bbs C)
    → (c ≡ true → IsValid x)
    → (c ≡ false → IsValid y)
    → IsValid (if c then x else y)
if-IsValid true x y v w = v refl
if-IsValid false x y v w = w refl

pub not_authenticated : (s : State) → is_awaiting_response s ≡ true → is_authenticated s ≡ false
not_authenticated s h = ground arith

pub not_locked : (s : State) → is_awaiting_response s ≡ true → s.mode ≢ locked_out
not_locked s h e = ground arith

module _ {C : Type 0} (pf : Platform C) where
  show_challenge-IsValid :
      (b : Bbs C) (c : C) (draws : List ℕ) (now len : ℕ) (o : Issued)
      → IsValid b
      → b.is_sysop ≡ false
      → b.sysop_auth.mode ≢ locked_out
      → issue_challenge draws now len b.sysop_auth ≡ some o
      → IsValid (show_challenge pf b c o)
  unfolding show_challenge
  show_challenge-IsValid b c draws now len (err, chal, id, auth) v user free h =
      let valid =
        issue_challenge-IsValid b.sysop_auth v.auth_valid draws now len (err, chal, id, auth) free
          h in
      elim (issue_challenge-modes draws now len b.sysop_auth (err, chal, id, auth) h) [
        | inl (ok, waits) ↦
            rw (ok, show_challenge)
              (record {
                is_login = user ∙ ground arith;
                privileged = λ p. cc;
                waiting = ground arith;
                auth_valid = valid;
                line_fits = v.line_fits;
                body_fits = v.body_fits;
              })
        | inr (err, same) ↦
            rw (err, show_challenge)
              (record {
                is_login = v.is_login ∙ ap (λ s. is_authenticated s) (sym same);
                privileged = v.privileged;
                waiting = v.waiting ∙ ap (λ s. is_awaiting_response s) (sym same);
                auth_valid = valid;
                line_fits = v.line_fits;
                body_fits = v.body_fits;
              })
      ]

  pub sysop_issue_challenge-IsValid :
      (b : Bbs C)
      → IsValid b
      → b.is_sysop ≡ false
      → b.sysop_auth.mode ≢ locked_out
      → IsValid (sysop_issue_challenge pf b)
  unfolding sysop_issue_challenge
  sysop_issue_challenge-IsValid b v user free =
      let (draws, c) = pf.random b.outside in
      elim (Option-cases (issue_challenge draws (pf.now_ms b.outside) 64 b.sysop_auth)) [
        | inl endless ↦ rw (endless, sysop_issue_challenge) v
        | inr (o, found) ↦
            rw (found, sysop_issue_challenge)
              (show_challenge-IsValid b c draws (pf.now_ms b.outside) 64 o v user free found)
      ]

  pub expire_if_idle-IsValid :
      (b : Bbs C)
      → b.input_mode ≡ command
      → IsValid b
      → IsValid (sysop_expire_authenticated_if_idle pf b)
  unfolding sysop_expire_authenticated_if_idle
  expire_if_idle-IsValid b at v =
      let now = pf.now_ms b.outside in
      let (login, waits) = expire-modes now b.sysop_auth in
      let valid = expire-IsValid b.sysop_auth v.auth_valid now in
      elim (Bool-cases (expire_authenticated_if_idle now b.sysop_auth).0) [
        | inl over ↦
            rw (over, sysop_expire_authenticated_if_idle)
              (record {
                is_login = ground arith;
                privileged = λ p. ground arith;
                waiting = v.waiting ∙ sym waits;
                auth_valid = valid;
                line_fits = v.line_fits;
                body_fits = v.body_fits;
              })
        | inr still ↦
            rw (still, sysop_expire_authenticated_if_idle)
              (record {
                is_login = v.is_login ∙ ground arith;
                privileged = v.privileged;
                waiting = v.waiting ∙ sym waits;
                auth_valid = valid;
                line_fits = v.line_fits;
                body_fits = v.body_fits;
              })
      ]
