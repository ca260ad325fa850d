-- ===== src/Auth/Steps.antt =====
-- sysop_auth.c: sequences of calls, and what a response can do.
use esp_tnc.Prelude.{
  ℕ, ◌≤◌, ◌≡◌, ◌≢◌, ◌↔◌, refl, Bool, true, false, not, ◌||◌, none, some, List, Bytes, if◌then◌else◌,
  ltb, ◌==◌, arith, inl, inr, Bool-cases, Option-cases,
}
use esp_tnc.Auth.{
  idle, locked_out, State, success, no_active, is_awaiting_response, clear_challenge, reset_session,
  is_locked_out, bypass_authenticate, set_deferred_config, take_deferred_config,
  set_deferred_console, take_deferred_console, note_activity, expire_authenticated_if_idle,
  issue_challenge, submit_response,
}
use esp_tnc.Auth.Modes.{mode-is_locked_out}
use esp_tnc.Auth.Matching.{verify_response}
use esp_tnc.Auth.Session.{
  IsValid, clear_challenge-IsValid, reset_session-IsValid, is_locked_out-IsValid, bypass-IsValid,
  judge-IsValid, note_activity-IsValid, expire-IsValid, issue_challenge-IsValid,
}

mode-clear_challenge : (s : State) → is_awaiting_response s ≡ true → (clear_challenge s).mode ≡ idle
unfolding clear_challenge
mode-clear_challenge s h = ground arith

pub submit_response-IsValid :
    (response : Bytes) (now : ℕ) (s : State)
    → IsValid s
    → IsValid (submit_response response now s).1
unfolding submit_response
submit_response-IsValid response now s v =
    elim (Bool-cases (s.active_challenge_id == 0 || not (is_awaiting_response s))) [
      | inl off ↦ rw (off, submit_response) v
      | inr posed ↦ elim (Bool-cases (ltb s.challenge_expires_ms now)) [
        | inl late ↦
            rw (posed, submit_response) (rw (late, submit_response) (clear_challenge-IsValid s v))
        | inr in_time ↦
            rw (posed, submit_response)
              (rw (in_time, submit_response)
                (judge-IsValid (clear_challenge s) (clear_challenge-IsValid s v) _ now
                  (mode-clear_challenge s (ground arith))))
      ]
    ]

-- The state after `sysop_auth_issue_challenge`; the same one where the random numbers do not
-- suffice.
unfoldable pub issued : List ℕ → ℕ → ℕ → State → State
issued draws now len s = elim (issue_challenge draws now len s) [ none ↦ s | some o ↦ o.3 ]

-- SYSOP, CONFIG and TERM issue a challenge after they have asked `sysop_auth_is_locked_out`.
unfoldable pub issue_unless_locked : List ℕ → ℕ → ℕ → State → State
unfolding issued
issue_unless_locked draws now len s =
    let (locked, s') = is_locked_out now s in if locked then s' else issued draws now len s'

-- SYSOP NEW in place of a response.
unfoldable pub renew_if_awaiting : List ℕ → ℕ → ℕ → State → State
unfolding issued
renew_if_awaiting draws now len s = if is_awaiting_response s then issued draws now len s else s

issued-IsValid :
    (draws : List ℕ) (now len : ℕ) (s : State)
    → IsValid s
    → s.mode ≢ locked_out
    → IsValid (issued draws now len s)
unfolding issued
issued-IsValid draws now len s v free = elim (Option-cases (issue_challenge draws now len s)) [
  | inl endless ↦ rw (endless, issued) v
  | inr (o, found) ↦ rw (found, issued) (issue_challenge-IsValid s v draws now len o free found)
]

issue_unless_locked-IsValid :
    (draws : List ℕ) (now len : ℕ) (s : State)
    → IsValid s
    → IsValid (issue_unless_locked draws now len s)
unfolding issue_unless_locked
issue_unless_locked-IsValid draws now len s v = elim (Bool-cases (is_locked_out now s).0) [
  | inl locked ↦ rw (locked, issue_unless_locked) (is_locked_out-IsValid s v now)
  | inr free ↦
      rw (free, issue_unless_locked)
        (issued-IsValid draws now len (is_locked_out now s).1 (is_locked_out-IsValid s v now)
          (mode-is_locked_out now s free))
]

renew_if_awaiting-IsValid :
    (draws : List ℕ) (now len : ℕ) (s : State)
    → IsValid s
    → IsValid (renew_if_awaiting draws now len s)
unfolding renew_if_awaiting
renew_if_awaiting-IsValid draws now len s v = elim (Bool-cases (is_awaiting_response s)) [
  | inr other ↦ rw (other, renew_if_awaiting) v
  | inl waits ↦
      rw (waits, renew_if_awaiting) (issued-IsValid draws now len s v (λ e. ground (arith, waits)))
]

-- The calls of the module's interface, as bbs.c makes them.
pub data Step (s : State) : State → Type 0 where
  reset : Step s (reset_session s)
  check : (now : ℕ) → Step s (is_locked_out now s).1
  bypass : (now : ℕ) → Step s (bypass_authenticate now s)
  note : (now : ℕ) → Step s (note_activity now s)
  expire : (now : ℕ) → Step s (expire_authenticated_if_idle now s).1
  issue : (draws : List ℕ) (now len : ℕ) → Step s (issue_unless_locked draws now len s)
  renew : (draws : List ℕ) (now len : ℕ) → Step s (renew_if_awaiting draws now len s)
  submit : (response : Bytes) (now : ℕ) → Step s (submit_response response now s).1
  set_config : (b : Bool) → Step s (set_deferred_config b s)
  take_config : Step s (take_deferred_config s).1
  set_console : (b : Bool) → Step s (set_deferred_console b s)
  take_console : Step s (take_deferred_console s).1

pub data Reach (s : State) : State → Type 0 where
  here : Reach s s
  next : {t u : State} → Reach s t → Step t u → Reach s u

-- The deferred entries are no part of the invariant.
pub IsValid-deferred :
    (s : State) (a b : Bool)
    → IsValid s
    → IsValid (record s { deferred_config_entry = a; deferred_console_entry = b })
IsValid-deferred s a b v = record {
  allows = v.allows;
  byte = v.byte;
  capped = v.capped;
  tries = v.tries;
  short = v.short;
  posed = v.posed;
}

Step-IsValid : {s t : State} → Step s t → IsValid s → IsValid t
unfolding set_deferred_config take_deferred_config set_deferred_console take_deferred_console
Step-IsValid {s} reset v = reset_session-IsValid s v
Step-IsValid {s} (check now) v = is_locked_out-IsValid s v now
Step-IsValid {s} (bypass now) v = bypass-IsValid s v now
Step-IsValid {s} (note now) v = note_activity-IsValid s v now
Step-IsValid {s} (expire now) v = expire-IsValid s v now
Step-IsValid {s} (issue draws now len) v = issue_unless_locked-IsValid draws now len s v
Step-IsValid {s} (renew draws now len) v = renew_if_awaiting-IsValid draws now len s v
Step-IsValid {s} (submit response now) v = submit_response-IsValid response now s v
Step-IsValid {s} (set_config b) v = IsValid-deferred s b s.deferred_console_entry v
Step-IsValid {s} take_config v = IsValid-deferred s false s.deferred_console_entry v
Step-IsValid {s} (set_console b) v = IsValid-deferred s s.deferred_config_entry b v
Step-IsValid {s} take_console v = IsValid-deferred s s.deferred_config_entry false v

-- Whatever calls are made, in any order, where a challenge is issued only after it was asked
-- whether the session is locked out, or to renew one that is awaited, the state stays valid: unless
-- it is locked out, fewer attempts have failed than are allowed, and a session that awaits a
-- response has a challenge with an id and four different places of the secret.
pub Reach-IsValid : {s t : State} → IsValid s → Reach s t → IsValid t
Reach-IsValid v here = v
Reach-IsValid v (next r st) = Step-IsValid st (Reach-IsValid v r)

-- A response succeeds exactly when a challenge is awaited, its time has not passed, and the
-- response answers it.
pub submit_response-success :
    (response : Bytes) (now : ℕ) (s : State)
    → ((submit_response response now s).0 ≡ success) ↔ (
        (is_awaiting_response s ≡ true)
        × (s.active_challenge_id ≢ 0)
        × (now ≤ s.challenge_expires_ms)
        × (verify_response s.secret s.challenge_indices s.active_challenge_id response ≡ true))
unfolding submit_response
submit_response-success response now s =
    (λ h. (ground arith, ground arith, ground arith, ground arith), λ h. ground arith)

abbrev is_closed : State → Bool
is_closed s = s.active_challenge_id == 0 || not (is_awaiting_response s)

no_active_of_closed :
    (response : Bytes) (now : ℕ) (s : State)
    → is_closed s ≡ true
    → (submit_response response now s).0 ≡ no_active
unfolding submit_response
no_active_of_closed response now s h = rw (h, submit_response) refl

submit_response_closes :
    (response : Bytes) (now : ℕ) (s : State) → is_closed (submit_response response now s).1 ≡ true
unfolding submit_response
submit_response_closes response now s = elim (Bool-cases (is_closed s)) [
  | inl closed ↦ rw (closed, submit_response) closed
  | inr posed ↦ elim (Bool-cases (ltb s.challenge_expires_ms now)) [
    | inl late ↦ rw (posed, submit_response) (rw (late, submit_response) (ground arith))
    | inr in_time ↦ rw (posed, submit_response) (rw (in_time, submit_response) (ground arith))
  ]
]

-- No challenge is answered twice: after any response, right, wrong or late, the next one finds
-- none.
pub submit_response_once :
    (response response' : Bytes) (now now' : ℕ) (s : State)
    → (submit_response response' now' (submit_response response now s).1).0 ≡ no_active
submit_response_once response response' now now' s =
    no_active_of_closed response' now' (submit_response response now s).1
      (submit_response_closes response now s)
