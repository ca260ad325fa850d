-- ===== src/TestBbs/Counters/Private.antt =====
-- test_bbs/main/main.c: the tests with private messages keep the counters consistent.
use esp_tnc.Prelude.{ℕ, Bool, Option, none, some, Bytes}
use esp_tnc.TestBbs.Link.{Link}
use esp_tnc.TestBbs.Action.{Keeps}
use esp_tnc.TestBbs.Context.{Kconfig}
use esp_tnc.TestBbs.Consistent.{IsConsistent}
use esp_tnc.TestBbs.Counters.Session.{session_rules}
use esp_tnc.TestBbs.Counters.Posting.{
  check_command-IsConsistent, begin_post-IsConsistent, enter_subject-IsConsistent,
  enter_body-IsConsistent,
}
use esp_tnc.TestBbs.Private.{
  check_listed, track_stored, post_private, private_subject_test, private_body_test, private_post,
  private_checks, private_tests, switch_to_alt, recipient_command, recipient_body, recipient_post,
  return_to_primary, recipient_checks, recipient_tests,
}

module _ {C : Type 0} (ln : Link C) (k : Kconfig) where
  check_listed-IsConsistent :
      (name : Bytes) (cmd : Bytes) (subject : Bytes) (good : Bytes) (bad : Bytes)
      → Keeps IsConsistent (check_listed ln k name cmd subject good bad)
  unfolding check_listed
  check_listed-IsConsistent name cmd subject good bad = search (session_rules) depth 60

  track_stored-IsConsistent : (stored : Option ℕ) → Keeps IsConsistent (track_stored ln k stored)
  unfolding track_stored
  track_stored-IsConsistent none = search (session_rules) depth 60
  track_stored-IsConsistent (some id) = search (session_rules) depth 60

  post_private-IsConsistent : (body : Bytes) → Keeps IsConsistent (post_private ln k body)
  unfolding post_private
  post_private-IsConsistent body =
      search (session_rules, enter_body-IsConsistent, track_stored-IsConsistent) depth 60

  private_subject_test-IsConsistent :
      (subject : Bytes) → Keeps IsConsistent (private_subject_test ln k subject)
  unfolding private_subject_test
  private_subject_test-IsConsistent subject =
      search (session_rules, enter_subject-IsConsistent) depth 60

  private_body_test-IsConsistent : Keeps IsConsistent (private_body_test ln k)
  unfolding private_body_test
  private_body_test-IsConsistent = search (session_rules, post_private-IsConsistent) depth 60

  private_post-IsConsistent : (subject : Bytes) → Keeps IsConsistent (private_post ln k subject)
  unfolding private_post
  private_post-IsConsistent subject =
      search
        (
          session_rules, begin_post-IsConsistent, private_subject_test-IsConsistent,
          private_body_test-IsConsistent,
        )
        depth 60

  private_checks-IsConsistent :
      (subject : Bytes) (id : ℕ) → Keeps IsConsistent (private_checks ln k subject id)
  unfolding private_checks
  private_checks-IsConsistent subject id =
      search (session_rules, check_listed-IsConsistent, check_command-IsConsistent) depth 60

  pub private_tests-IsConsistent :
      (subject : Bytes) → Keeps IsConsistent (private_tests ln k subject)
  unfolding private_tests
  private_tests-IsConsistent subject =
      search (session_rules, private_post-IsConsistent, private_checks-IsConsistent) depth 60

  switch_to_alt-IsConsistent : Keeps IsConsistent (switch_to_alt ln k)
  unfolding switch_to_alt
  switch_to_alt-IsConsistent = search (session_rules) depth 60

  recipient_command-IsConsistent : Keeps IsConsistent (recipient_command ln k)
  unfolding recipient_command
  recipient_command-IsConsistent = search (session_rules, begin_post-IsConsistent) depth 60

  recipient_body-IsConsistent : Keeps IsConsistent (recipient_body ln k)
  unfolding recipient_body
  recipient_body-IsConsistent = search (session_rules, post_private-IsConsistent) depth 60

  recipient_post-IsConsistent :
      (subject : Bytes) (ok : Bool) → Keeps IsConsistent (recipient_post ln k subject ok)
  unfolding recipient_post
  recipient_post-IsConsistent subject ok =
      search
        (
          session_rules, recipient_command-IsConsistent, enter_subject-IsConsistent,
          recipient_body-IsConsistent,
        )
        depth 60

  return_to_primary-IsConsistent : Keeps IsConsistent (return_to_primary ln k)
  unfolding return_to_primary
  return_to_primary-IsConsistent = search (session_rules) depth 60

  recipient_checks-IsConsistent :
      (subject : Bytes) (id : ℕ) → Keeps IsConsistent (recipient_checks ln k subject id)
  unfolding recipient_checks
  recipient_checks-IsConsistent subject id =
      search (session_rules, check_listed-IsConsistent, check_command-IsConsistent) depth 60

  pub recipient_tests-IsConsistent :
      (subject : Bytes) → Keeps IsConsistent (recipient_tests ln k subject)
  unfolding recipient_tests
  recipient_tests-IsConsistent subject =
      search
        (
          session_rules, switch_to_alt-IsConsistent, recipient_post-IsConsistent,
          return_to_primary-IsConsistent, recipient_checks-IsConsistent,
        )
        depth 60
