-- ===== src/Auth/Tests.antt =====
-- Runs of the challenge and response, and its theorems at concrete inputs.
use esp_tnc.Prelude.{
  ℕ, ◌<◌, ◌≡◌, ◌≢◌, ◌↔◌, refl, true, false, some, List, [], ◌∷◌, codes, length, arith,
}
use esp_tnc.Esp.{esp_ok}
use esp_tnc.Auth.{
  awaiting_response, authenticated, locked_out, State, Config, success, lockout, configured,
  configure, secret_is_valid, all_printable, is_locked_out, expire_authenticated_if_idle,
  submit_response,
}
use esp_tnc.Auth.Challenge.{chosen, contains, generate_challenge_indices}
use esp_tnc.Auth.Matching.{required_bytes, find_unused, match_all, verify_response}
use esp_tnc.Auth.Counting.{AllNonzero, bytes_at, Covers, verify_response_iff}
use esp_tnc.Auth.Ending.{generate_challenge_indices_ends}
use esp_tnc.Auth.Session.{IsValid}
use esp_tnc.Auth.Steps.{issue, issue_unless_locked, here, next, submit, Reach-IsValid}
use esp_tnc.Auth.Lockout.{
  IsWrong, IsLast, submit_response_wrong, lockout_lasts, lockout_wraps, expire_exact,
}

abbrev config : Config
config = record {
  secret = some (codes "correct-horse-battery");
  challenge_timeout_ms = 0;
  session_timeout_ms = 0;
  lockout_ms = 0;
  max_attempts = 0;
  secret_min_len = 0;
  secret_max_len = 0;
}

-- A session that awaits the answer "crec", after two wrong ones.
abbrev waiting : State
waiting = record {
  mode = awaiting_response;
  secret = codes "correct-horse-battery";
  challenge_indices = 1 ∷ 3 ∷ 5 ∷ 6 ∷ [];
  challenge_id_next = 4;
  active_challenge_id = 4;
  challenge_issued_ms = 1000;
  challenge_expires_ms = 301000;
  lockout_until_ms = 0;
  last_activity_ms = 0;
  challenge_timeout_ms = 300000;
  session_timeout_ms = 600000;
  lockout_ms = 900000;
  secret_min_len = 16;
  secret_max_len = 256;
  failed_attempts = 2;
  max_attempts = 3;
  deferred_config_entry = false;
  deferred_console_entry = false;
}

waiting-IsValid : IsValid waiting
unfolding contains
waiting-IsValid = record {
  allows = omega arith;
  byte = omega arith;
  capped = omega arith;
  tries = λ _. omega arith;
  short = omega arith;
  posed = λ _. (
    omega arith,
    (
      omega arith,
      omega arith,
      refl,
      (
        omega arith,
        omega arith,
        refl,
        (omega arith, omega arith, refl, (omega arith, omega arith, refl, tt)),
      ),
    ),
    refl,
  );
}

configures : configure config ≡ (esp_ok, configured config)
unfolding configure configured secret_is_valid all_printable
configures = refl

-- The answer may have its bytes in any order, with two more.
answers : (submit_response (codes "xcercx") 2000 waiting).0 ≡ success
unfolding submit_response verify_response required_bytes find_unused match_all
answers = refl

verify_response_iff_example :
    (verify_response (codes "correct-horse-battery") (1 ∷ 3 ∷ 5 ∷ 6 ∷ []) 4 (codes "xcercx") ≡ true)
    ↔ ((◌≢◌ {A = ℕ} 4 0)
        × AllNonzero (1 ∷ 3 ∷ 5 ∷ 6 ∷ [])
        × (length (codes "xcercx") ≡ 6)
        × Covers (codes "xcercx") (bytes_at (codes "correct-horse-battery") (1 ∷ 3 ∷ 5 ∷ 6 ∷ [])))
verify_response_iff_example =
    verify_response_iff (codes "correct-horse-battery") (1 ∷ 3 ∷ 5 ∷ 6 ∷ []) 4 (codes "xcercx")

abbrev draws : List ℕ
draws = 0 ∷ 1 ∷ 2 ∷ 3 ∷ 3 ∷ 2 ∷ 1 ∷ 0 ∷ 0 ∷ 1 ∷ 2 ∷ 3 ∷ 0 ∷ 1 ∷ 2 ∷ 3 ∷ []

draws_indices : generate_challenge_indices 21 draws ≡ chosen (1 ∷ 2 ∷ 3 ∷ 4 ∷ [])
unfolding generate_challenge_indices contains
draws_indices = refl

generate_challenge_indices_ends_example :
    (is : List ℕ) × (generate_challenge_indices 21 draws ≡ chosen is)
generate_challenge_indices_ends_example = generate_challenge_indices_ends 21 draws (omega arith) (
  0 ∷ 1 ∷ 2 ∷ 3 ∷ [],
  3 ∷ 2 ∷ 1 ∷ 0 ∷ 0 ∷ 1 ∷ 2 ∷ 3 ∷ 0 ∷ 1 ∷ 2 ∷ 3 ∷ [],
  refl,
  (refl, refl, refl, refl),
  (
    3 ∷ 2 ∷ 1 ∷ 0 ∷ [],
    0 ∷ 1 ∷ 2 ∷ 3 ∷ 0 ∷ 1 ∷ 2 ∷ 3 ∷ [],
    refl,
    (refl, refl, refl, refl),
    (
      0 ∷ 1 ∷ 2 ∷ 3 ∷ [],
      0 ∷ 1 ∷ 2 ∷ 3 ∷ [],
      refl,
      (refl, refl, refl, refl),
      (0 ∷ 1 ∷ 2 ∷ 3 ∷ [], [], refl, (refl, refl, refl, refl), tt),
    ),
  ),
)

Reach-IsValid_example :
    IsValid (issue_unless_locked draws 3000 64 (submit_response (codes "wrong!") 2000 waiting).1)
Reach-IsValid_example =
    Reach-IsValid waiting-IsValid
      (next (next here (submit (codes "wrong!") 2000)) (issue draws 3000 64))

mistake-IsWrong : IsWrong (codes "wrong!") 2000 waiting
unfolding verify_response required_bytes find_unused match_all
mistake-IsWrong = record {
  awaiting = refl;
  active = omega arith;
  in_time = omega arith;
  wrong = refl;
}

submit_response_wrong_example :
    ((submit_response (codes "wrong!") 2000 waiting).1.failed_attempts ≡ 3)
    × ((submit_response (codes "wrong!") 2000 waiting).1.mode ≡ locked_out)
    × ((submit_response (codes "wrong!") 2000 waiting).0 ≡ lockout)
submit_response_wrong_example =
    submit_response_wrong (codes "wrong!") 2000 waiting waiting-IsValid mistake-IsWrong

mistake-IsLast : IsLast (codes "wrong!") 2000 waiting
mistake-IsLast = record { wrong_one = mistake-IsWrong; last = refl }

lockout_lasts_example :
    ((is_locked_out 5000 (submit_response (codes "wrong!") 2000 waiting).1).0 ≡ true)
    ↔ (5000 < 902000)
lockout_lasts_example =
    lockout_lasts (codes "wrong!") 2000 5000 waiting waiting-IsValid mistake-IsLast (omega arith)

-- The same session, a minute before the counter wraps round.
abbrev late : State
late = record waiting { challenge_issued_ms = 4294900000; challenge_expires_ms = 4294960000 }

late-IsValid : IsValid late
late-IsValid = record {
  allows = omega arith;
  byte = omega arith;
  capped = omega arith;
  tries = λ _. omega arith;
  short = omega arith;
  posed = waiting-IsValid.posed;
}

late_answer : IsLast (codes "wrong!") 4294950000 late
unfolding verify_response required_bytes find_unused match_all
late_answer = record {
  wrong_one = record { awaiting = refl; active = omega arith; in_time = omega arith; wrong = refl };
  last = refl;
}

lockout_wraps_example :
    (is_locked_out 4294950000 (submit_response (codes "wrong!") 4294950000 late).1).0 ≡ false
lockout_wraps_example =
    lockout_wraps (codes "wrong!") 4294950000 late late-IsValid late_answer (omega arith)
      (omega arith) (omega arith)

abbrev busy : State
busy = record waiting { mode = authenticated; last_activity_ms = 4294900000 }

expire_exact_example : ((expire_authenticated_if_idle 600000 busy).0 ≡ true) ↔ (600000 < 667296)
expire_exact_example = expire_exact 4294900000 4295567296 busy refl refl (omega arith) (omega arith)
