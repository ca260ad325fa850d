-- ===== src/TestBbs/Rereading.antt =====
-- test_bbs/main/main.c: `run_script`, the tests with the bulletin that was posted.
use esp_tnc.Prelude.{
  ℕ, ◌+◌, Bool, not, ◌&&◌, ◌||◌, [], ◌++◌, Bytes, codes, strlcpy, leb, ◌==◌, add32, if◌then◌else◌,
}
use esp_tnc.TestBbs.Link.{Link}
use esp_tnc.TestBbs.Action.{Action, pure, gets, ◌>>=◌, ◌>>◌, when}
use esp_tnc.TestBbs.Context.{Context, Kconfig, record_result}
use esp_tnc.TestBbs.Session.{
  capture_has, run_cmd_expect_prompt, resolve_posted_message_id, reconnect_and_capture_banner,
  id_line,
}
use esp_tnc.TestBbs.Posting.{counts_or_zero, is_some, with_counts, check_command}

-- The conditions on the banner's counts after the post, the reading and the delete.
unfoldable pub posted_banner_is_good : ℕ × ℕ → ℕ × ℕ → Bool
posted_banner_is_good before after =
    leb (add32 before.0 1) after.0
    && leb after.1 after.0
    && (after.1 == 0 || after.1 == add32 before.1 1)

unfoldable pub read_banner_is_good : ℕ × ℕ → ℕ × ℕ → Bool
read_banner_is_good posted after = after.0 == posted.0 && leb after.1 posted.1

unfoldable pub deleted_banner_is_good : ℕ × ℕ → ℕ × ℕ → Bool
deleted_banner_is_good posted after = add32 after.0 1 == posted.0 && after.1 == 0

module _ {C : Type 0} (ln : Link C) (k : Kconfig) where
  -- A new connection, and the result of a test of its banner's counts, which are returned.
  unfoldable pub check_banner :
      Bytes → (ℕ × ℕ → Bool) → Bytes → Bytes → Bytes → Action (Context C) (ℕ × ℕ)
  check_banner name is_good good note bad = do
    counts ← reconnect_and_capture_banner ln k k.connect_timeout_ms
    let c = counts_or_zero counts
    let ok = is_some counts && is_good c
    record_result name ok
        (strlcpy 96 (if ok then with_counts good c ++ note else with_counts bad c))
    pure c

  -- R, and once more under a fresh id if the message is not found.
  unfoldable pub read_posted : Action (Context C) Bool
  read_posted = do
    id ← gets (λ x. x.posted_message_id)
    run_cmd_expect_prompt ln (id_line ln (codes "R") id) (codes "line one from test_bbs")
        (k.step_timeout_ms + 10000)

  unfoldable pub read_posted_twice : Action (Context C) Bool
  unfolding read_posted
  read_posted_twice = do
    ok ← read_posted
    missing ← capture_has ln (codes "*** Message not found")
    if not ok && missing
        then (do
          resolved ← resolve_posted_message_id ln k
          if resolved then read_posted else pure ok)
        else pure ok

  unfoldable pub read_tests : Action (Context C) (Unit {0})
  unfolding read_posted_twice check_command
  read_tests = do
    tag ← gets (λ x. x.run_subject_tag)
    check_command ln k (codes "L command") (codes "L\r") tag (codes "posted message listed")
        (codes "posted message missing from list")
    ok ← read_posted_twice
    record_result (codes "R command") ok
        (if ok then codes "message body read" else codes "failed to read stored message")

  unfoldable pub delete_tests : Action (Context C) (Unit {0})
  unfolding check_command
  delete_tests = do
    id ← gets (λ x. x.posted_message_id)
    check_command ln k (codes "K command") (id_line ln (codes "K") id) (codes "*** Message deleted")
        (codes "message deleted") (codes "delete confirmation missing")
    check_command ln k (codes "R after K") (id_line ln (codes "R") id)
        (codes "*** Message not found") (codes "not-found confirmed")
        (codes "unexpected read result after delete")

  unfoldable pub posted_tests : ℕ × ℕ → Action (Context C) (Unit {0})
  unfolding check_banner read_tests delete_tests
  posted_tests banner = do
    posted ←
        check_banner (codes "Banner after post") (posted_banner_is_good banner) []
          (codes " (persisted last-read may keep new=0)") (codes "unexpected post banner ")
    read_tests
    check_banner (codes "Banner after read") (read_banner_is_good posted) [] []
        (codes "unexpected read banner ")
    delete_tests
    check_banner (codes "Banner after delete") (deleted_banner_is_good posted) [] []
        (codes "unexpected delete banner ")
    pure tt

  -- if (ctx->posted_message_id != 0)
  unfoldable pub rereading_tests : ℕ × ℕ → Action (Context C) (Unit {0})
  unfolding posted_tests
  rereading_tests banner = do
    id ← gets (λ x. x.posted_message_id)
    when (not (id == 0)) (posted_tests banner)
