-- ===== src/TestBbs/Tests.antt =====
-- The test program's theorems at concrete inputs.
use esp_tnc.Prelude.{
  ℕ, ◌≤◌, ◌<◌, ◌≡◌, ◌≢◌, refl, none, some, List, [], ◌∷◌, ◌++◌, Bytes, codes, length, arith,
  Lacks-given,
}
use esp_tnc.Esp.{esp_ok}
use esp_tnc.Auth.{
  State, success, configured, Issued, start_challenge, issue_challenge, submit_response,
}
use esp_tnc.Auth.Challenge.{contains, generate_challenge_indices}
use esp_tnc.Bbs.Messages.{banner_line}
use esp_tnc.Samples.{idle_bbs, board, context}
use esp_tnc.TestBbs.Parsing.{parse_banner_counts, parse_sysop_challenge, build_sysop_response}
use esp_tnc.TestBbs.Answers.{parse_banner_counts-banner_line}
use esp_tnc.TestBbs.Login.{login_lem}
use esp_tnc.TestBbs.Waiting.{wait_for_tcp_phy_connected, Passes, wait_for_tcp_phy_connected_ends}
use esp_tnc.TestBbs.Context.{Kconfig}
use esp_tnc.TestBbs.Consistent.{IsConsistent, failures}
use esp_tnc.TestBbs.Script.{test_task}
use esp_tnc.TestBbs.Counters.{test_task-IsConsistent}

abbrev settings : Kconfig
settings = record {
  step_timeout_ms = 5000;
  connect_timeout_ms = 10000;
  sysop_secret = codes "correct-horse-battery";
  remote_callsign = codes "N0TST-2";
}

parse_banner_counts-banner_line_example :
    parse_banner_counts (codes "Welcome\r" ++ (banner_line idle_bbs (12, 3) ++ codes "BBS READY>"))
    ≡ some (12, 3)
parse_banner_counts-banner_line_example =
    parse_banner_counts-banner_line idle_bbs (codes "Welcome\r") (codes "BBS READY>")
      (Lacks-given 42 (codes "Welcome\r") refl) (Lacks-given 42 (codes "BBS READY>") refl) 12 3
      (omega arith) (omega arith)

-- A session of the SYSOP, and what it is asked.
abbrev session : State
session = configured (record {
  secret = some (codes "correct-horse-battery");
  challenge_timeout_ms = 0;
  session_timeout_ms = 0;
  lockout_ms = 0;
  max_attempts = 0;
  secret_min_len = 0;
  secret_max_len = 0;
})

abbrev draws : List ℕ
draws = 0 ∷ 2 ∷ 4 ∷ 5 ∷ []

abbrev asked : Issued
asked = start_challenge 1000 64 (1 ∷ 3 ∷ 5 ∷ 6 ∷ []) session

is_asked : issue_challenge draws 1000 64 session ≡ some asked
unfolding issue_challenge generate_challenge_indices contains configured
is_asked = refl

login_lem_example :
    (indices : List ℕ) × (response : Bytes) × (parse_sysop_challenge ([] ++ (asked.1 ++ []))
      ≡ some indices)
    × (build_sysop_response session.secret indices ≡ some response)
    × ((submit_response response 2000 asked.3).0 ≡ success)
login_lem_example = login_lem [] [] draws 1000 2000 session asked short tt is_asked at_once in_time
  where
    short : length session.secret < 65536
    short = unfold configured in omega arith

    at_once : asked.0 ≡ esp_ok
    at_once = unfold start_challenge in refl

    in_time : 2000 ≤ asked.3.challenge_expires_ms
    in_time = unfold start_challenge in unfold configured in omega arith

board-Passes : Passes board
board-Passes c = (1, omega arith, omega arith, omega arith)

wait_for_tcp_phy_connected_ends_example :
    (wait_for_tcp_phy_connected board 8000 4294967290).0 ≢ none
wait_for_tcp_phy_connected_ends_example =
    wait_for_tcp_phy_connected_ends board board-Passes 8000 4294967290 (omega arith) (omega arith)

test_task-IsConsistent_example : IsConsistent (test_task board settings 123456 context).1
test_task-IsConsistent_example =
    test_task-IsConsistent board settings 123456 context
      (unfold failures in record { run = refl; failed = refl; few = omega arith; ids = tt })
