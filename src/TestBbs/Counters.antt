-- ===== src/TestBbs/Counters.antt =====
-- test_bbs/main/main.c: whatever the link does, the counters and the tracked ids stay consistent.
mod Session
mod Config
mod Posting
mod Private
use esp_tnc.Prelude.{
  ℕ, refl, ◌≡◌, ◌≤◌, ◌%◌, Bytes, [], Option, none, some, Bool, true, false, zero, length, u32_mod,
}
use esp_tnc.TestBbs.Link.{Link}
use esp_tnc.TestBbs.Action.{Action, modify, Keeps}
use esp_tnc.TestBbs.Context.{Context, Kconfig}
use esp_tnc.TestBbs.Consistent.{IsConsistent, IsConsistent-same, Keeps-modify}
use esp_tnc.TestBbs.Script.{cleanup_test, refusal_tests, goodbye_test, run_script, test_task}
use Session.{session_rules}
use Config.{run_config_mode_tests-IsConsistent}
use Posting.{
  check_command-IsConsistent, banner_tests-IsConsistent, info_tests-IsConsistent,
  list_test-IsConsistent, bulletin_tests-IsConsistent, rereading_tests-IsConsistent,
}
use Private.{private_tests-IsConsistent, recipient_tests-IsConsistent}

module _ {C : Type 0} (ln : Link C) (k : Kconfig) where
  tagged-IsConsistent :
      (tag : Bytes)
      → Keeps {S = Context C} IsConsistent (modify (λ x. record x { run_subject_tag = tag }))
  tagged-IsConsistent tag =
      Keeps-modify (λ x. record x { run_subject_tag = tag })
        (λ x h. IsConsistent-same x _ refl refl refl refl h)

  cleanup_test-IsConsistent : Keeps IsConsistent (cleanup_test ln k)
  unfolding cleanup_test
  cleanup_test-IsConsistent = search session_rules depth 60

  refusal_tests-IsConsistent : Keeps IsConsistent (refusal_tests ln k)
  unfolding refusal_tests
  refusal_tests-IsConsistent = search (session_rules, check_command-IsConsistent) depth 60

  goodbye_test-IsConsistent : Keeps IsConsistent (goodbye_test ln k)
  unfolding goodbye_test
  goodbye_test-IsConsistent = search session_rules depth 60

  run_script-IsConsistent : (now_ms : ℕ) → Keeps IsConsistent (run_script ln k now_ms)
  unfolding run_script
  run_script-IsConsistent now_ms =
      search
        (
          session_rules, tagged-IsConsistent, banner_tests-IsConsistent, info_tests-IsConsistent,
          run_config_mode_tests-IsConsistent, list_test-IsConsistent, bulletin_tests-IsConsistent,
          rereading_tests-IsConsistent, private_tests-IsConsistent, recipient_tests-IsConsistent,
          cleanup_test-IsConsistent, refusal_tests-IsConsistent, goodbye_test-IsConsistent,
        )
        depth 60

  -- Whatever the link does, from a consistent context the test task ends in a consistent one: the
  -- counters of the tests run and failed are those of the results that were put out, as 32-bit
  -- numbers, and the messages that are tracked for the cleanup are at most 16, none with the id 0
  -- and none twice.
  pub test_task-IsConsistent :
      (now_ms : ℕ) (x : Context C) → IsConsistent x → IsConsistent (test_task ln k now_ms x).1
  unfolding test_task
  test_task-IsConsistent now_ms x h = kept.after x h
    where
      kept : Keeps IsConsistent (test_task ln k now_ms)
      kept = search (session_rules, run_script-IsConsistent) depth 60
