-- ===== src/Auth/Session.antt =====
-- sysop_auth.c: what holds of the state after any sequence of calls.
use esp_tnc.Prelude.{
  ℕ, ◌≤◌, ◌<◌, ◌≡◌, ◌≢◌, refl, Bool, true, none, some, List, [], Bytes, ltb, leb, ◌==◌, length,
  length-take, arith, inl, inr, ◌⊎◌, Bool-cases, sub32,
}
use esp_tnc.Esp.{esp_ok}
use esp_tnc.Auth.{
  idle, awaiting_response, locked_out, State, Config, Issued, is_authenticated, clear_challenge,
  configured, configure, fresh_session, reset_session, is_locked, is_locked_out,
  bypass_authenticate, note_activity, expire_authenticated_if_idle, start_challenge, issue_with,
  issue_challenge, judge, secret_is_valid, all_printable,
}
use esp_tnc.Auth.Challenge.{Generated, refused, running, chosen, generate_challenge_indices}
use esp_tnc.Auth.Drawing.{ArePlaces, generate_challenge_indices_lem}

-- A challenge that can be answered: it has an id, and asks for four different places.
abbrev pub IsPosed : State → Type 0
IsPosed s =
    (s.active_challenge_id ≢ 0)
    × ArePlaces (length s.secret) s.challenge_indices
    × (length s.challenge_indices ≡ 4)

pub record IsValid (s : State) : Type 0 where
  pub allows : 0 < s.max_attempts
  pub byte : s.max_attempts < 256
  pub capped : s.failed_attempts ≤ s.max_attempts
  pub tries : s.mode ≢ locked_out → s.failed_attempts < s.max_attempts
  pub short : length s.secret ≤ 256
  pub posed : s.mode ≡ awaiting_response → IsPosed s

configured-IsValid : (cfg : Config) → cfg.max_attempts < 256 → IsValid (configured cfg)
unfolding configured
configured-IsValid cfg byte = record {
  allows = ground arith;
  byte = ground arith;
  capped = ground arith;
  tries = λ _. ground arith;
  short = ground (arith, length-take {A = ℕ} 256 (elim cfg.secret [ none ↦ [] | some x ↦ x ]));
  posed = λ e. cc;
}

mode-configured : (cfg : Config) → (configured cfg).mode ≡ idle
unfolding configured
mode-configured cfg = refl

-- A secret that may be set: none, or printable bytes, neither too few nor too many.
abbrev pub IsAccepted : State → Bytes → Type 0
IsAccepted s x =
    (length x ≡ 0)
    ⊎ ((s.secret_min_len ≤ length x) × (length x ≤ s.secret_max_len) × (all_printable x ≡ true))

secret_is_valid_lem : (s : State) (x : Bytes) → secret_is_valid s x ≡ true → IsAccepted s x
unfolding secret_is_valid
secret_is_valid_lem s x h = elim (Bool-cases (length x == 0)) [
  | inl empty ↦ inl (ground arith)
  | inr more ↦ inr (ground arith, ground arith, ground arith)
]

-- What `sysop_auth_configure` accepts is a secret of no bytes, or one of printable bytes whose
-- length is within the two limits; the state is then valid and idle.
pub configure-IsValid :
    (cfg : Config) (s : State)
    → cfg.max_attempts < 256
    → configure cfg ≡ (esp_ok, s)
    → IsValid s × (s.mode ≡ idle) × IsAccepted s s.secret
unfolding configure
configure-IsValid cfg s byte h =
    let same : configured cfg ≡ s = ground arith in
    let valid : secret_is_valid (configured cfg) (configured cfg).secret ≡ true = ground arith in
    (
      rw same at (configured-IsValid cfg byte),
      rw same at (mode-configured cfg),
      rw same at (secret_is_valid_lem (configured cfg) (configured cfg).secret valid),
    )

pub clear_challenge-IsValid : (s : State) → IsValid s → IsValid (clear_challenge s)
unfolding clear_challenge
clear_challenge-IsValid s v = record {
  allows = ground (arith, v.allows);
  byte = ground (arith, v.byte);
  capped = ground (arith, v.capped);
  tries = λ free. ground (arith, v.tries);
  short = ground (arith, v.short);
  posed = λ e. absurd (ground arith);
}

module _ (s : State) (v : IsValid s) where
  pub reset_session-IsValid : IsValid (reset_session s)
  unfolding reset_session
  reset_session-IsValid = clear_challenge-IsValid (fresh_session s) (record {
    allows = v.allows;
    byte = v.byte;
    capped = omega arith;
    tries = λ free. v.allows;
    short = v.short;
    posed = λ e. cc;
  })

  pub is_locked_out-IsValid : (now : ℕ) → IsValid (is_locked_out now s).1
  unfolding is_locked_out
  is_locked_out-IsValid now = elim (Bool-cases (is_locked s.mode)) [
    | inr free ↦ rw (free, is_locked_out) v
    | inl locked ↦ elim (Bool-cases (leb s.lockout_until_ms now)) [
      | inr still ↦ rw (locked, is_locked_out) (rw (still, is_locked_out) v)
      | inl over ↦
          rw (locked, is_locked_out)
            (rw (over, is_locked_out)
              (record {
                allows = v.allows;
                byte = v.byte;
                capped = omega arith;
                tries = λ free. v.allows;
                short = v.short;
                posed = λ e. cc;
              }))
    ]
  ]

  pub bypass-IsValid : (now : ℕ) → IsValid (bypass_authenticate now s)
  unfolding bypass_authenticate
  bypass-IsValid now = record {
    allows = v.allows;
    byte = v.byte;
    capped = omega arith;
    tries = λ free. v.allows;
    short = v.short;
    posed = λ e. cc;
  }

  pub judge-IsValid : (good : Bool) (now : ℕ) → s.mode ≡ idle → IsValid (judge good now s).1
  unfolding judge
  judge-IsValid good now free = record {
    allows = ground (arith, v.allows);
    byte = ground (arith, v.byte);
    capped = ground (arith, v.tries, v.byte);
    tries = λ open_. ground (arith, v.tries, v.allows);
    short = ground (arith, v.short);
    posed = λ e. absurd (ground arith);
  }

  pub note_activity-IsValid : (now : ℕ) → IsValid (note_activity now s)
  unfolding note_activity
  note_activity-IsValid now = elim (Bool-cases (is_authenticated s)) [
    | inr off ↦ rw (off, note_activity) v
    | inl on ↦
        rw (on, note_activity)
          (record {
            allows = v.allows;
            byte = v.byte;
            capped = v.capped;
            tries = v.tries;
            short = v.short;
            posed = v.posed;
          })
  ]

  pub expire-IsValid : (now : ℕ) → IsValid (expire_authenticated_if_idle now s).1
  unfolding expire_authenticated_if_idle
  expire-IsValid now = elim (Bool-cases (is_authenticated s)) [
    | inr off ↦ rw (off, expire_authenticated_if_idle) v
    | inl on ↦ elim (Bool-cases (ltb s.session_timeout_ms (sub32 now s.last_activity_ms))) [
      | inr still ↦
          rw (on, expire_authenticated_if_idle) (rw (still, expire_authenticated_if_idle) v)
      | inl over ↦
          rw (on, expire_authenticated_if_idle)
            (rw (over, expire_authenticated_if_idle)
              (record {
                allows = v.allows;
                byte = v.byte;
                capped = v.capped;
                tries = λ free. v.tries (ground arith);
                short = v.short;
                posed = λ e. cc;
              }))
    ]
  ]

  start_challenge-IsValid :
      (now len : ℕ) (is : List ℕ)
      → s.mode ≢ locked_out
      → ArePlaces (length s.secret) is
      → length is ≡ 4
      → IsValid (start_challenge now len is s).3
  unfolding start_challenge
  start_challenge-IsValid now len is free places four = record {
    allows = v.allows;
    byte = v.byte;
    capped = v.capped;
    tries = λ _. v.tries free;
    short = v.short;
    posed = λ _. (ground arith, places, four);
  }

  issue_with-IsValid :
      (draws : List ℕ) (now len : ℕ) (o : Issued) (g : Generated)
      → s.mode ≢ locked_out
      → generate_challenge_indices (length s.secret) draws ≡ g
      → issue_with now len s g ≡ some o
      → IsValid o.3
  issue_with-IsValid draws now len o refused free found h =
      let same : s ≡ o.3 = ground arith in rw same at v
  issue_with-IsValid draws now len o running free found h = cc
  issue_with-IsValid draws now len o (chosen is) free found h =
      let (places, four) =
        generate_challenge_indices_lem (length s.secret) draws is (omega (arith, v.short)) found in
      let same : (start_challenge now len is s).3 ≡ o.3 = cc in
      rw same at (start_challenge-IsValid now len is free places four)

  pub issue_challenge-IsValid :
      (draws : List ℕ) (now len : ℕ) (o : Issued)
      → s.mode ≢ locked_out
      → issue_challenge draws now len s ≡ some o
      → IsValid o.3
  unfolding issue_challenge
  issue_challenge-IsValid draws now len o free h = elim (Bool-cases (len == 0)) [
    | inl none_ ↦ (let same : s ≡ o.3 = ground arith in rw same at v)
    | inr room ↦ elim (Bool-cases (ltb (length s.secret) 4)) [
      | inl few ↦ (let same : s ≡ o.3 = ground arith in rw same at v)
      | inr enough ↦
          issue_with-IsValid draws now len o (generate_challenge_indices (length s.secret) draws)
            free refl (ground arith)
    ]
  ]
