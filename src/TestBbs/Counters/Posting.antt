-- ===== src/TestBbs/Counters/Posting.antt =====
-- test_bbs/main/main.c: the tests of the banner and of the bulletin keep the counters consistent.
use esp_tnc.Prelude.{ℕ, Bool, Option, none, some, Bytes}
use esp_tnc.TestBbs.Link.{Link}
use esp_tnc.TestBbs.Action.{modify, Keeps, Keeps-bind}
use esp_tnc.TestBbs.Context.{Kconfig, track_created_id}
use esp_tnc.TestBbs.Consistent.{IsConsistent, track_created_id-IsConsistent}
use esp_tnc.TestBbs.Counters.Session.{posted-IsConsistent, session_rules}
use esp_tnc.TestBbs.Posting.{
  check_command, first_prompt, banner_came, banner_tests, info_tests, list_test, begin_post,
  enter_subject, enter_body, note_posted, confirm_posted, bulletin_subject, bulletin_body,
  bulletin_tests,
}
use esp_tnc.TestBbs.Rereading.{
  check_banner, read_posted, read_posted_twice, read_tests, delete_tests, posted_tests,
  rereading_tests,
}

module _ {C : Type 0} (ln : Link C) (k : Kconfig) where
  pub check_command-IsConsistent :
      (name : Bytes) (cmd : Bytes) (expect : Bytes) (good : Bytes) (bad : Bytes)
      → Keeps IsConsistent (check_command ln k name cmd expect good bad)
  unfolding check_command
  check_command-IsConsistent name cmd expect good bad = search (session_rules) depth 60

  first_prompt-IsConsistent : Keeps IsConsistent (first_prompt ln k)
  unfolding first_prompt
  first_prompt-IsConsistent = search (session_rules) depth 60

  banner_came-IsConsistent : (recovered : Bool) → Keeps IsConsistent (banner_came ln k recovered)
  unfolding banner_came
  banner_came-IsConsistent recovered = search (session_rules) depth 60

  pub banner_tests-IsConsistent : Keeps IsConsistent (banner_tests ln k)
  unfolding banner_tests
  banner_tests-IsConsistent =
      search (session_rules, first_prompt-IsConsistent, banner_came-IsConsistent) depth 60

  pub info_tests-IsConsistent : Keeps IsConsistent (info_tests ln k)
  unfolding info_tests
  info_tests-IsConsistent = search (session_rules, check_command-IsConsistent) depth 60

  pub list_test-IsConsistent : Keeps IsConsistent (list_test ln k)
  unfolding list_test
  list_test-IsConsistent = search (session_rules) depth 60

  pub begin_post-IsConsistent : (cmd : Bytes) → Keeps IsConsistent (begin_post ln k cmd)
  unfolding begin_post
  begin_post-IsConsistent cmd = search (session_rules) depth 60

  pub enter_subject-IsConsistent :
      (subject : Bytes) → Keeps IsConsistent (enter_subject ln k subject)
  unfolding enter_subject
  enter_subject-IsConsistent subject = search (session_rules) depth 60

  pub enter_body-IsConsistent : (body : Bytes) → Keeps IsConsistent (enter_body ln k body)
  unfolding enter_body
  enter_body-IsConsistent body = search (session_rules) depth 60

  note_posted-IsConsistent : (posted : Option ℕ) → Keeps IsConsistent (note_posted ln k posted)
  unfolding note_posted
  note_posted-IsConsistent none = search session_rules
  note_posted-IsConsistent (some id) =
      Keeps-bind (track_created_id id) (λ _. modify (λ x. record x { posted_message_id = id }))
        (track_created_id-IsConsistent id) (λ _. posted-IsConsistent ln id)

  confirm_posted-IsConsistent : Keeps IsConsistent (confirm_posted ln k)
  unfolding confirm_posted
  confirm_posted-IsConsistent = search (session_rules, note_posted-IsConsistent) depth 60

  bulletin_subject-IsConsistent : Keeps IsConsistent (bulletin_subject ln k)
  unfolding bulletin_subject
  bulletin_subject-IsConsistent = search (session_rules, enter_subject-IsConsistent) depth 60

  bulletin_body-IsConsistent : Keeps IsConsistent (bulletin_body ln k)
  unfolding bulletin_body
  bulletin_body-IsConsistent =
      search (session_rules, enter_body-IsConsistent, confirm_posted-IsConsistent) depth 60

  pub bulletin_tests-IsConsistent : Keeps IsConsistent (bulletin_tests ln k)
  unfolding bulletin_tests
  bulletin_tests-IsConsistent =
      search
        (
          session_rules, begin_post-IsConsistent, bulletin_subject-IsConsistent,
          bulletin_body-IsConsistent,
        )
        depth 60

  check_banner-IsConsistent :
      (name : Bytes) (is_good : ℕ × ℕ → Bool) (good : Bytes) (note : Bytes) (bad : Bytes)
      → Keeps IsConsistent (check_banner ln k name is_good good note bad)
  unfolding check_banner
  check_banner-IsConsistent name is_good good note bad = search (session_rules) depth 60

  read_posted-IsConsistent : Keeps IsConsistent (read_posted ln k)
  unfolding read_posted
  read_posted-IsConsistent = search (session_rules) depth 60

  read_posted_twice-IsConsistent : Keeps IsConsistent (read_posted_twice ln k)
  unfolding read_posted_twice
  read_posted_twice-IsConsistent = search (session_rules, read_posted-IsConsistent) depth 60

  read_tests-IsConsistent : Keeps IsConsistent (read_tests ln k)
  unfolding read_tests
  read_tests-IsConsistent =
      search (session_rules, read_posted_twice-IsConsistent, check_command-IsConsistent) depth 60

  delete_tests-IsConsistent : Keeps IsConsistent (delete_tests ln k)
  unfolding delete_tests
  delete_tests-IsConsistent = search (session_rules, check_command-IsConsistent) depth 60

  posted_tests-IsConsistent : (banner : ℕ × ℕ) → Keeps IsConsistent (posted_tests ln k banner)
  unfolding posted_tests
  posted_tests-IsConsistent banner =
      search
        (
          session_rules, check_banner-IsConsistent, read_tests-IsConsistent,
          delete_tests-IsConsistent,
        )
        depth 60

  pub rereading_tests-IsConsistent :
      (banner : ℕ × ℕ) → Keeps IsConsistent (rereading_tests ln k banner)
  unfolding rereading_tests
  rereading_tests-IsConsistent banner = search (session_rules, posted_tests-IsConsistent) depth 60
