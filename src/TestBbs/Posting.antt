-- ===== src/TestBbs/Posting.antt =====
-- test_bbs/main/main.c: `run_script`, from the first prompt to the posting of a bulletin.
use esp_tnc.Prelude.{
  ℕ, Bool, true, false, ◌||◌, Option, none, some, ◌++◌, Bytes, codes, strlcpy, decimal,
  if◌then◌else◌,
}
use esp_tnc.TestBbs.Link.{Link}
use esp_tnc.TestBbs.Parsing.{parse_banner_counts, parse_stored_message_id}
use esp_tnc.TestBbs.Action.{Action, pure, gets, modify, ◌>>=◌, ◌>>◌, and_then, when}
use esp_tnc.TestBbs.Context.{Context, Kconfig, record_result, track_created_id}
use esp_tnc.TestBbs.Session.{
  send_text, reconnect_session, reads_token, reads_prompt, capture_has, run_cmd_expect_prompt,
  resolve_posted_message_id,
}

-- The counts that were found, or the zeros that the variables begin with.
abbrev pub counts_or_zero : Option (ℕ × ℕ) → ℕ × ℕ
counts_or_zero none = (0, 0)
counts_or_zero (some c) = c

abbrev pub is_some : {A : Type 0} → Option A → Bool
is_some none = false
is_some (some a) = true

-- The counts in a result's detail, after a text.
abbrev pub with_counts : Bytes → ℕ × ℕ → Bytes
with_counts t c = t ++ (codes "total=" ++ (decimal c.0 ++ (codes " new=" ++ decimal c.1)))

module _ {C : Type 0} (ln : Link C) (k : Kconfig) where
  -- A command, what its answer must contain, and the details of its result.
  unfoldable pub check_command :
      Bytes → Bytes → Bytes → Bytes → Bytes → Action (Context C) (Unit {0})
  check_command name cmd expect good bad = do
    ok ← run_cmd_expect_prompt ln cmd expect k.step_timeout_ms
    record_result name ok (if ok then good else bad)

  -- The first prompt: whether it came, and whether after a new connection.
  unfoldable pub first_prompt : Action (Context C) (Bool × Bool)
  first_prompt = do
    ok ← reads_prompt ln k
    if ok then pure (true, false) else do
      recovered ← reconnect_session ln k.connect_timeout_ms
      ok ← and_then recovered (reads_prompt ln k)
      pure (ok, recovered)

  -- The tests of the banner, and its counts.
  unfoldable pub banner_came : Bool → Action (Context C) (ℕ × ℕ)
  banner_came recovered = do
    parsed ← gets (λ x. parse_banner_counts x.capture)
    record_result (codes "Banner unread summary") (is_some parsed) (
        if is_some parsed
        then strlcpy 96 (with_counts (codes "parsed ") (counts_or_zero parsed))
        else codes "unable to parse banner summary")
    welcome ← capture_has ln (codes "Welcome")
    bbs ← capture_has ln (codes "BBS")
    record_result (codes "Banner and prompt") (welcome || bbs) (
        if welcome || bbs
        then (if recovered then codes "received after reconnect recovery" else codes "received")
        else codes "missing banner text")
    pure (counts_or_zero parsed)

  unfoldable pub banner_tests : Action (Context C) (ℕ × ℕ)
  unfolding first_prompt banner_came
  banner_tests = do
    came ← first_prompt
    if came.0 then banner_came came.1 else do
      record_result (codes "Banner and prompt") false (
          if came.1
          then codes "timeout waiting for prompt after reconnect recovery"
          else codes "timeout waiting for first prompt")
      pure (0, 0)

  unfoldable pub info_tests : Action (Context C) (Unit {0})
  unfolding check_command
  info_tests = do
    check_command (codes "I command") (codes "I\r") (codes "Call:") (codes "info returned")
        (codes "missing info output")
    check_command (codes "J command") (codes "J\r") (codes "Heard:") (codes "heard list returned")
        (codes "heard output missing")

  unfoldable pub list_test : Action (Context C) (Unit {0})
  list_test = do
    ok ← run_cmd_expect_prompt ln (codes "LL 5\r") (codes "# From") k.step_timeout_ms
    empty ← capture_has ln (codes "*** No messages")
    none_readable ← capture_has ln (codes "*** No readable messages")
    record_result (codes "LL command") (ok || (empty || none_readable)) (
        if ok || (empty || none_readable)
        then codes "list output valid"
        else codes "list output invalid")

  -- The steps of a post: the command, the subject, the body with /EX.
  unfoldable pub begin_post : Bytes → Action (Context C) Bool
  begin_post cmd = do ok ← send_text ln cmd; and_then ok (reads_token ln k (codes "Subject: "))

  unfoldable pub enter_subject : Bytes → Action (Context C) Bool
  enter_subject subject = do
    ok ← send_text ln (strlcpy 64 (subject ++ codes "\r"))
    and_then ok (reads_token ln k (codes "Enter body, use /EX to finish:\r"))

  unfoldable pub enter_body : Bytes → Action (Context C) Bool
  enter_body body = do
    ok ← send_text ln body
    ok ← and_then ok (send_text ln (codes "/EX\r"))
    and_then ok (reads_prompt ln k)

  -- The id that the board confirms, if it does.
  unfoldable pub note_posted : Option ℕ → Action (Context C) (Unit {0})
  note_posted none = pure tt
  note_posted (some id) = do track_created_id id; modify (λ x. record x { posted_message_id = id })

  unfoldable pub confirm_posted : Action (Context C) Bool
  unfolding note_posted
  confirm_posted = do
    id ← gets (λ x. parse_stored_message_id x.capture)
    note_posted id
    resolve_posted_message_id ln k

  unfoldable pub bulletin_subject : Action (Context C) Bool
  unfolding enter_subject
  bulletin_subject = do
    tag ← gets (λ x. x.run_subject_tag)
    ok ← enter_subject tag
    record_result (codes "Subject entry") ok
        (if ok then codes "body prompt received" else codes "body prompt missing")
    pure ok

  unfoldable pub bulletin_body : Action (Context C) (Unit {0})
  unfolding enter_body confirm_posted
  bulletin_body = do
    ok ← enter_body (codes "line one from test_bbs\r")
    ok ← and_then ok confirm_posted
    record_result (codes "Post + /EX") ok
        (if ok then codes "message stored" else codes "store confirmation missing")

  unfoldable pub bulletin_tests : Action (Context C) (Unit {0})
  unfolding begin_post bulletin_subject bulletin_body
  bulletin_tests = do
    ok ← begin_post (codes "SB TEST\r")
    record_result (codes "SB command") ok
        (if ok then codes "entered subject mode" else codes "failed to enter subject mode")
    ok ← and_then ok bulletin_subject
    when ok bulletin_body
