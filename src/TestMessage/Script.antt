-- ===== src/TestMessage/Script.antt =====
-- test_message/main/main.c: `run_script` and `test_task`.
use esp_tnc.Prelude.{
  ℕ, zero, suc, ◌+◌, ◌*◌, ◌%◌, Bool, true, false, not, Option, none, some, List, [], ◌∷◌, ◌++◌,
  Bytes, codes, ltb, ◌==◌, length, is_empty, decimal, if◌then◌else◌,
}
use esp_tnc.TestBbs.Link.{Link}
use esp_tnc.TestBbs.Sending.{send_text}
use esp_tnc.TestBbs.Reading.{read_until_token, read_until_any_token, read_until_command_prompt}
use esp_tnc.TestBbs.Parsing.{capture_contains, parse_stored_message_id}
use esp_tnc.TestBbs.Action.{Action, pure, gets, modify, ◌>>=◌, ◌>>◌, and_then, when}
use esp_tnc.TestBbs.Context.{record_result, on_link, on_link_, reads}
use esp_tnc.TestBbs.Session.{flush_rx}
use esp_tnc.TestMessage.Bodies.{
  parse_body_limit, effective_body_max, generate_random_body, body_lines, all_found,
}
use esp_tnc.TestMessage.Entries.{Run, on_base, put_entry}

-- The settings CONFIG_TEST_MSG_..., and whether malloc has room for the oversized body.
pub record MsgConfig : Type 0 where
  pub step_timeout_ms : ℕ
  pub connect_timeout_ms : ℕ
  pub message_count : ℕ
  pub max_body_size : ℕ
  pub has_memory : Bool

-- CAPTURE_MAX
abbrev msg_capture_max : ℕ
msg_capture_max = 6144

-- 'A' + (i % 26), for so many places from `i` on.
unfoldable pub oversize_body : ℕ → ℕ → Bytes
oversize_body zero i = []
oversize_body (suc n) i = (65 + i % 26) ∷ oversize_body n (suc i)

module _ {C : Type 0} (ln : Link C) (k : MsgConfig) where
  abbrev sends : Bytes → Action (Run C) Bool
  sends d = on_base (on_link (send_text ln d))

  abbrev finds_token : Bytes → Action (Run C) Bool
  finds_token token = on_base (reads (read_until_token ln token k.step_timeout_ms msg_capture_max))

  abbrev finds_prompt : ℕ → Action (Run C) Bool
  finds_prompt timeout_ms =
      on_base (reads (read_until_command_prompt ln timeout_ms msg_capture_max))

  abbrev records : Bytes → Bool → Bytes → Bytes → Action (Run C) (Unit {0})
  records name pass good bad = on_base (record_result name pass (if pass then good else bad))

  unfoldable pub msg_run_cmd : Bytes → Bytes → ℕ → Action (Run C) Bool
  msg_run_cmd cmd expect timeout_ms = do
    ok ← sends cmd
    if not ok then pure false else do
      ok ← finds_prompt timeout_ms
      if not ok
          then pure false
          else if is_empty expect
          then pure true
          else gets (λ r. capture_contains r.base.capture expect)

  -- The random body of the message, and the random numbers behind it.
  unfoldable pub make_body : ℕ → Run C → Run C
  make_body i r =
      let body =
        generate_random_body r.random (effective_body_max k.max_body_size r.bbs_body_limit) in
      record (put_entry i (record (r.messages i) { body = body }) r) {
        random = λ j. r.random (1 + length body + j);
      }

  unfoldable pub send_lines : List Bytes → Action (Run C) (Unit {0})
  send_lines [] = pure tt
  send_lines (l ∷ ls) = do sends (l ++ codes "\r"); send_lines ls

  unfoldable pub keep_id : ℕ → Option ℕ → Action (Run C) Bool
  keep_id i none = pure false
  keep_id i (some id) = do
    modify (λ r. put_entry i (record (r.messages i) { id = id }) r)
    pure true

  unfoldable pub post_body : ℕ → Action (Run C) (Unit {0})
  unfolding make_body send_lines keep_id
  post_body i = do
    modify (make_body i)
    e ← gets (λ r. r.messages i)
    send_lines (body_lines e.body)
    ok ← sends (codes "/EX\r")
    ok ← and_then ok (finds_prompt k.step_timeout_ms)
    id ← gets (λ r. parse_stored_message_id r.base.capture)
    ok ← and_then ok (keep_id i id)
    records (codes "Post message") ok (codes "message stored") (codes "store confirmation missing")

  unfoldable pub post_message : ℕ → Action (Run C) (Unit {0})
  unfolding post_body
  post_message i = do
    sends (codes "SB TEST\r")
    ok ← finds_token (codes "Subject: ")
    records (codes "SB command") ok (codes "entered subject mode")
        (codes "failed to enter subject mode")
    when ok (do
      on_base (flush_rx ln)
      sends (codes "Test message " ++ (decimal (suc i) ++ codes "\r"))
      ok ← finds_token (codes "use /EX to finish:")
      if not ok
          then on_base (record_result (codes "Subject entry") false (codes "body prompt missing"))
          else do
            when (i == 0)
                (modify (λ r. record r { bbs_body_limit = parse_body_limit r.base.capture }))
            post_body i)

  unfoldable pub verify_message : ℕ → Action (Run C) (Unit {0})
  unfolding msg_run_cmd
  verify_message i = do
    e ← gets (λ r. r.messages i)
    msg_run_cmd (codes "R " ++ (decimal e.id ++ codes "\r")) [] (k.step_timeout_ms * 2)
    found ← gets (λ r. all_found r.base.capture (body_lines e.body))
    records (codes "Read message") found (codes "body verified") (codes "body mismatch")

  unfoldable pub remove_message : ℕ → Action (Run C) (Unit {0})
  unfolding msg_run_cmd
  remove_message i = do
    e ← gets (λ r. r.messages i)
    ok ←
        msg_run_cmd (codes "K " ++ (decimal e.id ++ codes "\r")) (codes "*** Message deleted")
          k.step_timeout_ms
    records (codes "Delete message") ok (codes "message deleted")
        (codes "delete confirmation missing")

  -- The loops over the messages, `left` of them from the `i`-th on.
  unfoldable pub each_message : (ℕ → Action (Run C) (Unit {0})) → ℕ → ℕ → Action (Run C) (Unit {0})
  each_message act zero i = pure tt
  each_message act (suc left) i = do act i; each_message act left (suc i)

  -- Lines are sent until the board warns that the body is full.
  unfoldable pub send_until_warned : List Bytes → Action (Run C) Bool
  send_until_warned [] = pure false
  send_until_warned (l ∷ ls) = do
    sends (l ++ codes "\r")
    warned ← on_base (
        reads (
          read_until_any_token ln (codes "*** Body limit reached" ∷ codes "*** Body full" ∷ []) 300
            msg_capture_max))
    if warned then pure true else send_until_warned ls

  unfoldable pub remove_oversize : Option ℕ → Action (Run C) (Unit {0})
  unfolding msg_run_cmd
  remove_oversize stored = elim stored [
    | none ↦
        records (codes "Oversize post stored") false (codes "truncated message stored")
          (codes "store confirmation missing")
    | some id ↦ (do
      records (codes "Oversize post stored") true (codes "truncated message stored")
          (codes "store confirmation missing")
      ok ←
          msg_run_cmd (codes "K " ++ (decimal id ++ codes "\r")) (codes "*** Message deleted")
            k.step_timeout_ms
      records (codes "Oversize delete") ok (codes "oversize message deleted")
          (codes "delete confirmation missing"))
  ]

  unfoldable pub oversize_text : Bytes → Action (Run C) (Unit {0})
  unfolding send_until_warned remove_oversize
  oversize_text body = do
    on_base (flush_rx ln)
    warned ← send_until_warned (body_lines body)
    records (codes "Oversize body warning") warned (codes "BBS sent body-full warning")
        (codes "no body-full warning received")
    sends (codes "/EX\r")
    ok ← finds_prompt k.step_timeout_ms
    id ← gets (λ r. parse_stored_message_id r.base.capture)
    remove_oversize (if ok then id else none)

  unfoldable pub oversize_post : Bytes → Action (Run C) (Unit {0})
  unfolding oversize_text
  oversize_post body = do
    sends (codes "SB OVERSIZE\r")
    ok ← finds_token (codes "Subject: ")
    records (codes "Oversize SB") ok (codes "entered subject mode")
        (codes "failed to enter subject mode")
    when ok (do
      on_base (flush_rx ln)
      sends (codes "Oversize test message\r")
      ok ← finds_token (codes "use /EX to finish:")
      records (codes "Oversize subject") ok (codes "body prompt received")
          (codes "body prompt missing")
      when ok (oversize_text body))

  unfoldable pub oversize_test : Action (Run C) (Unit {0})
  unfolding oversize_body oversize_post
  oversize_test = do
    board ← gets (λ r. r.bbs_body_limit)
    let limit = if ltb 0 board then board else k.max_body_size
    if not k.has_memory
        then on_base
            (record_result (codes "Oversize post") false (codes "malloc failed for oversize body"))
        else oversize_post (oversize_body (limit + 128) 0)

  unfoldable pub msg_run_script : Action (Run C) (Unit {0})
  unfolding each_message post_message verify_message remove_message oversize_test
  msg_run_script = do
    ok ← finds_prompt k.step_timeout_ms
    records (codes "BBS banner") ok (codes "initial prompt received")
        (codes "timeout waiting for initial prompt")
    when ok (do
      on_base (flush_rx ln)
      each_message post_message k.message_count 0
      each_message verify_message k.message_count 0
      each_message remove_message k.message_count 0
      oversize_test
      sends (codes "B\r")
      on_base (on_link (ln.see_disconnected k.step_timeout_ms))
      on_base (record_result (codes "Disconnect") true (codes "session closed")))

  unfoldable pub msg_test_task : Action (Run C) (Unit {0})
  unfolding msg_run_script
  msg_test_task = do
    up ← on_base (on_link (ln.see_connected k.connect_timeout_ms))
    on_base (
        record_result (codes "AX.25 connect") up (
          if up then codes "session established" else codes "timeout waiting for connect callback"))
    when up msg_run_script
    on_base (on_link_ ln.set_finished)
