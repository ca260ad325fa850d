-- ===== src/TestBbs/Script.antt =====
-- test_bbs/main/main.c: the whole of `run_script`, and `test_task`.
use esp_tnc.Prelude.{
  ℕ, ◌%◌, true, false, not, ◌&&◌, ◌||◌, [], ◌++◌, Bytes, codes, strlcpy, decimal, u32_mod,
  if◌then◌else◌,
}
use esp_tnc.TestBbs.Link.{Link}
use esp_tnc.TestBbs.Action.{Action, modify, ◌>>=◌, ◌>>◌, and_then}
use esp_tnc.TestBbs.Context.{Context, Kconfig, record_result, on_link, on_link_}
use esp_tnc.TestBbs.Session.{
  send_text, capture_has, run_cmd_expect_prompt, cleanup_created_messages,
}
use esp_tnc.TestBbs.Config.{run_config_mode_tests}
use esp_tnc.TestBbs.Posting.{check_command, banner_tests, info_tests, list_test, bulletin_tests}
use esp_tnc.TestBbs.Rereading.{rereading_tests}
use esp_tnc.TestBbs.Private.{private_tests, recipient_tests}

module _ {C : Type 0} (ln : Link C) (k : Kconfig) where
  -- The tag of this run, from the milliseconds of esp_timer_get_time.
  abbrev tag_of : ℕ → Bytes
  tag_of now_ms = strlcpy 32 (codes "AUTOTEST-" ++ decimal (now_ms % u32_mod))

  unfoldable pub cleanup_test : Action (Context C) (Unit {0})
  cleanup_test = do
    ok ← cleanup_created_messages ln k
    record_result (codes "Cleanup created messages") ok (
        if ok then codes "no run-tagged messages left" else codes "some run-tagged messages remain")

  unfoldable pub refusal_tests : Action (Context C) (Unit {0})
  unfolding check_command
  refusal_tests = do
    check_command ln k (codes "SP validation") (codes "SP BAD*\r")
        (codes "*** SP requires valid callsign") (codes "invalid callsign rejected")
        (codes "invalid callsign accepted")
    ok ← run_cmd_expect_prompt ln (codes "XYZ\r") [] k.step_timeout_ms
    unknown ← capture_has ln (codes "*** Unknown command")
    help ← capture_has ln (codes "Commands:")
    record_result (codes "Unknown command help") (ok && (unknown || help))
        (if ok && (unknown || help) then codes "help shown" else codes "help not shown")

  unfoldable pub goodbye_test : Action (Context C) (Unit {0})
  goodbye_test = do
    on_link_ (ln.clear_events false true)
    ok ← send_text ln (codes "B\r")
    ok ← and_then ok (on_link (ln.see_disconnected k.step_timeout_ms))
    record_result (codes "B disconnect") ok
        (if ok then codes "remote disconnected" else codes "disconnect timeout")

  unfoldable pub run_script : ℕ → Action (Context C) (Unit {0})
  unfolding cleanup_test refusal_tests goodbye_test
  run_script now_ms = do
    modify (λ x. record x { run_subject_tag = tag_of now_ms })
    banner ← banner_tests ln k
    info_tests ln k
    run_config_mode_tests ln k
    list_test ln k
    bulletin_tests ln k
    rereading_tests ln k banner
    private_tests ln k (strlcpy 48 (tag_of now_ms ++ codes "-PRIV"))
    recipient_tests ln k (strlcpy 48 (tag_of now_ms ++ codes "-TO-ME"))
    cleanup_test
    refusal_tests
    goodbye_test

  unfoldable pub test_task : ℕ → Action (Context C) (Unit {0})
  unfolding run_script
  test_task now_ms = do
    up ← on_link (ln.see_connected k.connect_timeout_ms)
    if not up
        then (do
          record_result (codes "AX.25 connect") false (codes "timeout waiting for connect callback")
          on_link_ ln.set_finished)
        else do
          record_result (codes "AX.25 connect") true (codes "session established")
          run_script now_ms
          on_link_ ln.set_finished
