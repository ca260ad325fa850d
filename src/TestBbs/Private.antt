-- ===== src/TestBbs/Private.antt =====
-- test_bbs/main/main.c: `run_script`, the tests with private messages.
use esp_tnc.Prelude.{
  ℕ, Bool, true, false, not, ◌&&◌, Option, none, some, [], ◌++◌, Bytes, codes, strlcpy, ◌==◌,
  if◌then◌else◌,
}
use esp_tnc.TestBbs.Link.{Link}
use esp_tnc.TestBbs.Parsing.{parse_stored_message_id}
use esp_tnc.TestBbs.Action.{Action, pure, gets, ◌>>=◌, ◌>>◌, and_then, when}
use esp_tnc.TestBbs.Context.{Context, Kconfig, record_result, track_created_id}
use esp_tnc.TestBbs.Session.{
  reads_prompt, capture_has, run_cmd_expect_prompt, reconnect_as_local, id_line,
}
use esp_tnc.TestBbs.Posting.{check_command, begin_post, enter_subject, enter_body}

module _ {C : Type 0} (ln : Link C) (k : Kconfig) where
  -- What must stand in the answer is looked for behind the prompt.
  unfoldable pub check_listed :
      Bytes → Bytes → Bytes → Bytes → Bytes → Action (Context C) (Unit {0})
  check_listed name cmd subject good bad = do
    ok ← run_cmd_expect_prompt ln cmd [] k.step_timeout_ms
    listed ← capture_has ln subject
    record_result name (ok && listed) (if ok && listed then good else bad)

  -- The id that the board confirms is tracked; 0 if there is none, which fails the test.
  unfoldable pub track_stored : Option ℕ → Action (Context C) (Bool × ℕ)
  track_stored none = pure (false, 0)
  track_stored (some id) = do track_created_id id; pure (true, id)

  unfoldable pub post_private : Bytes → Action (Context C) (Bool × ℕ)
  unfolding track_stored
  post_private body = do
    ok ← enter_body ln k body
    if not ok
        then pure (false, 0)
        else do id ← gets (λ x. parse_stored_message_id x.capture); track_stored id

  unfoldable pub private_subject_test : Bytes → Action (Context C) Bool
  private_subject_test subject = do
    ok ← enter_subject ln k subject
    record_result (codes "Private subject entry") ok
        (if ok then codes "private body prompt received" else codes "private body prompt missing")
    pure ok

  unfoldable pub private_body_test : Action (Context C) ℕ
  unfolding post_private
  private_body_test = do
    r ← post_private (codes "private line from test_bbs\r")
    record_result (codes "Private post + /EX") r.0
        (if r.0 then codes "private message stored" else codes "private store confirmation missing")
    pure r.1

  -- The private message's id, or 0.
  unfoldable pub private_post : Bytes → Action (Context C) ℕ
  unfolding private_subject_test private_body_test
  private_post subject = do
    ok ← begin_post ln k (codes "SP N1PVT-1\r")
    record_result (codes "SP private command") ok (
        if ok
        then codes "entered private subject mode"
        else codes "failed to enter private subject mode")
    ok ← and_then ok (private_subject_test subject)
    if ok then private_body_test else pure 0

  unfoldable pub private_checks : Bytes → ℕ → Action (Context C) (Unit {0})
  unfolding check_listed check_command
  private_checks subject id = do
    check_listed (codes "Private visible in L") (codes "L\r") subject
        (codes "L includes sent private message") (codes "L missing sent private message")
    check_listed (codes "Private visible in LM") (codes "LM\r") subject
        (codes "mine-only list includes private post") (codes "mine-only list missing private post")
    check_listed (codes "Private visible in LL") (codes "LL 5\r") subject
        (codes "newest list includes private post") (codes "newest list missing private post")
    check_command ln k (codes "Private sender read") (id_line ln (codes "R") id)
        (codes "private line from test_bbs") (codes "sender can read own private message")
        (codes "sender could not read own private message")
    check_command ln k (codes "Private delete") (id_line ln (codes "K") id)
        (codes "*** Message deleted") (codes "sender deleted private post")
        (codes "private delete confirmation missing")

  unfoldable pub private_tests : Bytes → Action (Context C) (Unit {0})
  unfolding private_post private_checks
  private_tests subject = do
    id ← private_post subject
    when (not (id == 0)) (private_checks subject id)

  -- As another user: whether the address has changed, and whether the prompt came.
  unfoldable pub switch_to_alt : Action (Context C) (Bool × Bool)
  switch_to_alt = do
    alt ← gets (λ x. x.alt_local_addr)
    switched ← reconnect_as_local ln alt k.connect_timeout_ms
    ok ← and_then switched (reads_prompt ln k)
    record_result (codes "Recipient-K alt session") ok (
        if ok
        then codes "connected as alternate callsign"
        else codes "failed to switch to alternate callsign")
    pure (switched, ok)

  unfoldable pub recipient_command : Action (Context C) Bool
  recipient_command = do
    primary ← gets (λ x. x.primary_local_addr)
    ok ← begin_post ln k (strlcpy 64 (codes "SP " ++ (strlcpy 16 primary ++ codes "\r")))
    record_result (codes "Recipient-K setup SP") ok (
        if ok
        then codes "alt sender entered private subject mode"
        else codes "failed to enter private mode for recipient regression")
    pure ok

  unfoldable pub recipient_body : Action (Context C) ℕ
  unfolding post_private
  recipient_body = do
    r ← post_private (codes "recipient regression payload\r")
    record_result (codes "Recipient-K setup post") r.0 (
        if r.0
        then codes "message to primary user stored"
        else codes "failed to store recipient regression message")
    pure r.1

  -- The id of the message to the first user, or 0.
  unfoldable pub recipient_post : Bytes → Bool → Action (Context C) ℕ
  unfolding recipient_command recipient_body
  recipient_post subject ok = do
    ok ← and_then ok recipient_command
    ok ← and_then ok (enter_subject ln k subject)
    if ok then recipient_body else pure 0

  unfoldable pub return_to_primary : Action (Context C) (Unit {0})
  return_to_primary = do
    primary ← gets (λ x. x.primary_local_addr)
    ok ← reconnect_as_local ln primary k.connect_timeout_ms
    ok ← and_then ok (reads_prompt ln k)
    record_result (codes "Recipient-K return primary") ok (
        if ok
        then codes "returned to primary callsign session"
        else codes "failed to return to primary session")

  unfoldable pub recipient_checks : Bytes → ℕ → Action (Context C) (Unit {0})
  unfolding check_listed check_command
  recipient_checks subject id = do
    check_listed (codes "Recipient visible in L") (codes "L\r") subject
        (codes "L includes message addressed to current callsign")
        (codes "L missing message addressed to current callsign")
    check_command ln k (codes "Recipient read regression") (id_line ln (codes "R") id)
        (codes "recipient regression payload") (codes "recipient can read addressed message")
        (codes "recipient could not read addressed message")
    check_command ln k (codes "Recipient-K regression") (id_line ln (codes "K") id)
        (codes "*** Message deleted") (codes "recipient successfully deleted addressed message")
        (codes "recipient could not delete addressed message")
    check_command ln k (codes "Recipient-K verify removed") (id_line ln (codes "R") id)
        (codes "*** Message not found") (codes "message no longer present")
        (codes "message still present after recipient delete")

  unfoldable pub recipient_tests : Bytes → Action (Context C) (Unit {0})
  unfolding switch_to_alt recipient_post return_to_primary recipient_checks
  recipient_tests subject = do
    alt ← switch_to_alt
    id ← recipient_post subject alt.1
    when alt.0 return_to_primary
    when (not (id == 0)) (recipient_checks subject id)
