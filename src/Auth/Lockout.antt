-- ===== src/Auth/Lockout.antt =====
-- sysop_auth.c: failed attempts, the lockout, and the clocks.
use esp_tnc.Prelude.{
  ℕ, ◌+◌, ◌%◌, ◌-◌, ◌≤◌, ◌<◌, ◌≡◌, ◌≢◌, ◌↔◌, true, false, Bytes, ◌==◌, if◌then◌else◌, arith, inl,
  inr, Bool-cases, add32, sub32, u32_mod,
}
use esp_tnc.Auth.{
  idle, authenticated, locked_out, State, failed, lockout, is_awaiting_response, clear_challenge,
  is_locked_out, expire_authenticated_if_idle, judge, submit_response,
}
use esp_tnc.Auth.Matching.{verify_response}
use esp_tnc.Auth.Session.{IsValid}

-- A response in time to a challenge, which does not answer it.
pub record IsWrong (response : Bytes) (now : ℕ) (s : State) : Type 0 where
  pub awaiting : is_awaiting_response s ≡ true
  pub active : s.active_challenge_id ≢ 0
  pub in_time : now ≤ s.challenge_expires_ms
  pub wrong : verify_response s.secret s.challenge_indices s.active_challenge_id response ≡ false

submit_response-judge :
    (response : Bytes) (now : ℕ) (s : State)
    → IsWrong response now s
    → submit_response response now s ≡ judge false now (clear_challenge s)
unfolding submit_response
submit_response-judge response now s w = ground (arith, w.awaiting, w.active, w.in_time, w.wrong)

clear_challenge-keeps :
    (s : State)
    → ((clear_challenge s).failed_attempts ≡ s.failed_attempts)
      × ((clear_challenge s).max_attempts ≡ s.max_attempts)
      × ((clear_challenge s).lockout_ms ≡ s.lockout_ms)
unfolding clear_challenge
clear_challenge-keeps s = ground arith

module _ (now : ℕ) (s c : State) (same : c.failed_attempts ≡ s.failed_attempts)
    (max : c.max_attempts ≡ s.max_attempts) (few : s.failed_attempts < s.max_attempts)
    (byte : s.max_attempts < 256) where
  judge_wrong :
      ((judge false now c).1.failed_attempts ≡ s.failed_attempts + 1)
      × ((judge false now c).1.mode
          ≡ (if s.failed_attempts + 1 == s.max_attempts then locked_out else idle))
      × ((judge false now c).0
          ≡ (if s.failed_attempts + 1 == s.max_attempts then lockout else failed))
  unfolding judge
  judge_wrong = ground arith

  judge_locks :
      s.failed_attempts + 1 ≡ s.max_attempts
      → c.lockout_ms ≡ s.lockout_ms
      → ((judge false now c).1.mode ≡ locked_out)
        × ((judge false now c).1.lockout_until_ms ≡ add32 now s.lockout_ms)
  unfolding judge
  judge_locks last long = ground arith

not_locked : (s : State) → is_awaiting_response s ≡ true → s.mode ≢ locked_out
not_locked s h e = ground arith

-- A wrong response counts as one more failed attempt. It locks the session out exactly when that
-- makes as many as are allowed, and otherwise leaves it idle.
pub submit_response_wrong :
    (response : Bytes) (now : ℕ) (s : State)
    → IsValid s
    → IsWrong response now s
    → ((submit_response response now s).1.failed_attempts ≡ s.failed_attempts + 1)
      × ((submit_response response now s).1.mode
          ≡ (if s.failed_attempts + 1 == s.max_attempts then locked_out else idle))
      × ((submit_response response now s).0
          ≡ (if s.failed_attempts + 1 == s.max_attempts then lockout else failed))
submit_response_wrong response now s v w = rw (submit_response-judge response now s w) (
    judge_wrong now s (clear_challenge s) (clear_challenge-keeps s).0 (clear_challenge-keeps s).1
      (v.tries (not_locked s w.awaiting)) v.byte)

-- The last wrong response that is allowed.
pub record IsLast (response : Bytes) (now : ℕ) (s : State) : Type 0 where
  pub wrong_one : IsWrong response now s
  pub last : s.failed_attempts + 1 ≡ s.max_attempts

until-submit_response :
    (response : Bytes) (now : ℕ) (s : State)
    → IsValid s
    → IsLast response now s
    → ((submit_response response now s).1.mode ≡ locked_out)
      × ((submit_response response now s).1.lockout_until_ms ≡ add32 now s.lockout_ms)
until-submit_response response now s v l =
    let (tries, most, long) = clear_challenge-keeps s in
    rw (submit_response-judge response now s l.wrong_one) (
      judge_locks now s (clear_challenge s) tries most (v.tries (not_locked s l.wrong_one.awaiting))
        v.byte l.last long)

is_locked_out_iff :
    (t : ℕ) (s : State)
    → s.mode ≡ locked_out
    → ((is_locked_out t s).0 ≡ true) ↔ (t < s.lockout_until_ms)
unfolding is_locked_out
is_locked_out_iff t s locked = (λ h. ground arith, λ h. ground arith)

-- The lockout after the last wrong response lasts `lockout_ms` from then on and no longer, while
-- the millisecond counter does not wrap round in that time.
pub lockout_lasts :
    (response : Bytes) (now t : ℕ) (s : State)
    → IsValid s
    → IsLast response now s
    → now + s.lockout_ms < u32_mod
    → ((is_locked_out t (submit_response response now s).1).0 ≡ true) ↔ (t < now + s.lockout_ms)
lockout_lasts response now t s v l no_wrap =
    let (locked, until) = until-submit_response response now s v l in
    let (to, from) = is_locked_out_iff t (submit_response response now s).1 locked in
    (λ h. omega (arith, to h), λ h. from (omega arith))

-- Where the counter wraps round before the lockout's end, there is no lockout: the session is free
-- again in the very millisecond of the last wrong response.
pub lockout_wraps :
    (response : Bytes) (now : ℕ) (s : State)
    → IsValid s
    → IsLast response now s
    → now < u32_mod
    → s.lockout_ms < u32_mod
    → u32_mod ≤ now + s.lockout_ms
    → (is_locked_out now (submit_response response now s).1).0 ≡ false
lockout_wraps response now s v l word word' wraps =
    let (locked, until) = until-submit_response response now s v l in
    let (to, from) = is_locked_out_iff now (submit_response response now s).1 locked in
    elim (Bool-cases (is_locked_out now (submit_response response now s).1).0) [
      | inl h ↦ absurd (omega (arith, to h))
      | inr h ↦ h
    ]

-- An authenticated session that was last active at the time `t` expires at the time `t'` exactly
-- when more than its timeout has passed, also where the counter has wrapped round in between.
pub expire_exact :
    (t t' : ℕ) (s : State)
    → s.mode ≡ authenticated
    → s.last_activity_ms ≡ t % u32_mod
    → t ≤ t'
    → t' < t + u32_mod
    → ((expire_authenticated_if_idle (t' % u32_mod) s).0 ≡ true) ↔ (s.session_timeout_ms < (t' - t))
unfolding expire_authenticated_if_idle
expire_exact t t' s on last le near =
    let elapsed : sub32 (t' % u32_mod) s.last_activity_ms ≡ t' - t = omega arith in
    (λ h. ground (arith, elapsed), λ h. ground (arith, elapsed))
