-- ===== src/TestBbs/Session.antt =====
-- test_bbs/main/main.c: reconnecting, commands with their answers, and the messages of this run.
use esp_tnc.Prelude.{
  ℕ, Bool, true, false, not, ◌&&◌, ◌||◌, Option, none, List, [], ◌∷◌, ◌++◌, Bytes, codes, ltb, ◌==◌,
  length, is_empty, if◌then◌else◌, decimal,
}
use esp_tnc.Esp.{EspErr, invalid_state, not_found, is_ok}
use esp_tnc.TestBbs.Link.{Link}
use esp_tnc.TestBbs.Sending
use esp_tnc.TestBbs.Reading.{
  read_until_token, read_until_any_token, read_until_command_prompt, read_until_config_prompt,
  prompt_tokens,
}
use esp_tnc.TestBbs.Parsing.{capture_contains, parse_banner_counts, collect_subject_ids}
use esp_tnc.TestBbs.Waiting.{wait_for_tcp_phy_connected}
use esp_tnc.TestBbs.Action.{Action, pure, gets, modify, ◌>>=◌, ◌>>◌}
use esp_tnc.TestBbs.Context.{
  Context, Kconfig, track_created_id, latest_tracked_id, on_link, on_link_, reads, on_wait,
}

abbrev pub capture_max : ℕ
capture_max = 4096

-- err == ESP_ERR_INVALID_STATE, err == ESP_ERR_NOT_FOUND
abbrev says_invalid_state : EspErr → Bool
says_invalid_state invalid_state = true
says_invalid_state _ = false

abbrev says_not_found : EspErr → Bool
says_not_found not_found = true
says_not_found _ = false

module _ {C : Type 0} (ln : Link C) where
  unfoldable pub flush_rx : Action (Context C) (Unit {0})
  unfolding on_link_
  flush_rx = on_link_ ln.flush

  unfoldable pub send_text : Bytes → Action (Context C) Bool
  unfolding on_link
  send_text t = on_link (Sending.send_text ln t)

  -- The connection is made, from a clean queue.
  unfoldable pub connect_again : ℕ → Action (Context C) Bool
  connect_again timeout_ms = do
    flush_rx
    on_link_ (ln.clear_events true false)
    err ← on_link ln.connect
    if not (is_ok err) then pure false else on_link (ln.wait_connected timeout_ms)

  unfoldable pub reconnect_session : ℕ → Action (Context C) Bool
  unfolding connect_again
  reconnect_session timeout_ms = do
    flush_rx
    on_link_ (ln.clear_events true true)
    err ← on_link ln.shutdown
    if not (is_ok err) then pure false else do
      gone ← on_link (ln.wait_disconnected timeout_ms)
      if not gone then pure false else connect_again timeout_ms

  -- The end of the old connection: whether the function goes on.
  unfoldable pub shut_down : ℕ → Action (Context C) Bool
  shut_down timeout_ms = do
    err ← on_link ln.shutdown
    if is_ok err then on_link (ln.wait_disconnected timeout_ms) else pure (says_invalid_state err)

  -- The TCP connection is made anew.
  unfoldable pub restart_transport : Action (Context C) Bool
  restart_transport = do
    on_link_ ln.tcp_deinit
    err ← on_link ln.tcp_init
    if not (is_ok err) then pure false else on_wait (wait_for_tcp_phy_connected ln ln.tcp_wait_ms)

  -- The app_port and the connection get the new address.
  unfoldable pub move_port : Bytes → ℕ → Action (Context C) Bool
  unfolding connect_again
  move_port local_addr timeout_ms = do
    err ← on_link ln.remove_port
    if not (is_ok err) && not (says_not_found err) then pure false else do
      err ← on_link (ln.register_port local_addr)
      if not (is_ok err) then pure false else do
        err ← on_link (ln.conn_init local_addr)
        if not (is_ok err) then pure false else connect_again timeout_ms

  unfoldable pub reconnect_as_local : Bytes → ℕ → Action (Context C) Bool
  unfolding shut_down restart_transport move_port
  reconnect_as_local local_addr timeout_ms = do
    flush_rx
    on_link_ (ln.clear_events true true)
    ended ← shut_down timeout_ms
    if not ended then pure false else do
      on_link_ ln.conn_deinit
      ok ← if ln.has_tcp then restart_transport else pure true
      if not ok then pure false else move_port local_addr timeout_ms

  -- read_until_token, whether it returned ESP_OK
  unfoldable pub reads_token : Kconfig → Bytes → Action (Context C) Bool
  reads_token k token = reads (read_until_token ln token k.step_timeout_ms capture_max)

  unfoldable pub reads_prompt : Kconfig → Action (Context C) Bool
  reads_prompt k = reads (read_until_any_token ln (prompt_tokens ln) k.step_timeout_ms capture_max)

  unfoldable pub reads_command_prompt : ℕ → Action (Context C) Bool
  reads_command_prompt timeout_ms = reads (read_until_command_prompt ln timeout_ms capture_max)

  unfoldable pub reads_config_prompt : ℕ → Action (Context C) Bool
  reads_config_prompt timeout_ms = reads (read_until_config_prompt ln timeout_ms capture_max)

  unfoldable pub capture_has : Bytes → Action (Context C) Bool
  capture_has needle = gets (λ x. capture_contains x.capture needle)

  -- The counts of the banner after a new connection; `none`: the function returns false.
  unfoldable pub reconnect_and_capture_banner : Kconfig → ℕ → Action (Context C) (Option (ℕ × ℕ))
  unfolding reconnect_session reads_prompt
  reconnect_and_capture_banner k timeout_ms = do
    ok ← reconnect_session timeout_ms
    if not ok then pure none else do
      ok ← reads_prompt k
      if not ok then pure none else gets (λ x. parse_banner_counts x.capture)

  -- `expect` is empty where it is NULL in the source.
  unfoldable pub run_cmd_expect_prompt : Bytes → Bytes → ℕ → Action (Context C) Bool
  unfolding send_text reads_command_prompt capture_has
  run_cmd_expect_prompt cmd expect timeout_ms = do
    ok ← send_text cmd
    if not ok then pure false else do
      ok ← reads_command_prompt timeout_ms
      if not ok then pure false else if is_empty expect then pure true else capture_has expect

  unfoldable pub run_cmd_expect_config_prompt : Bytes → Bytes → ℕ → Action (Context C) Bool
  unfolding send_text reads_config_prompt capture_has
  run_cmd_expect_config_prompt cmd expect timeout_ms = do
    ok ← send_text cmd
    if not ok then pure false else do
      ok ← reads_config_prompt timeout_ms
      if not ok then pure false else if is_empty expect then pure true else capture_has expect

  -- The loop over the ids that were found.
  unfoldable pub track_all : List ℕ → Action (Context C) (Unit {0})
  track_all [] = pure tt
  track_all (i ∷ is) = do track_created_id i; track_all is

  -- How many messages of this run the board lists.
  unfoldable pub collect_run_messages_from_list : Kconfig → Action (Context C) ℕ
  unfolding run_cmd_expect_prompt track_all
  collect_run_messages_from_list k = do
    ok ← run_cmd_expect_prompt (codes "LL 200\r") [] k.step_timeout_ms
    if not ok then pure 0 else do
      ids ← gets (λ x. collect_subject_ids x.capture x.run_subject_tag 16)
      track_all ids
      pure (length ids)

  unfoldable pub resolve_posted_message_id : Kconfig → Action (Context C) Bool
  unfolding collect_run_messages_from_list
  resolve_posted_message_id k = do
    collect_run_messages_from_list k
    latest ← gets latest_tracked_id
    if latest == 0
        then pure false
        else do modify (λ x. record x { posted_message_id = latest }); pure true

  -- snprintf of "K %lu\r" or "R %lu\r" into a line of 64 bytes, or 32: eleven at most are printed.
  abbrev pub id_line : Bytes → ℕ → Bytes
  id_line cmd id = cmd ++ (codes " " ++ (decimal id ++ codes "\r"))

  -- Whether the message is gone.
  unfoldable pub delete_one : Kconfig → ℕ → Action (Context C) Bool
  delete_one k id = do
    ok ← run_cmd_expect_prompt (id_line (codes "K") id) [] k.step_timeout_ms
    deleted ← capture_has (codes "*** Message deleted")
    missing ← capture_has (codes "*** Message not found")
    pure (ok && (deleted || missing))

  -- The loop over the created ids: whether each of them is gone.
  unfoldable pub delete_all : Kconfig → List ℕ → Action (Context C) Bool
  unfolding delete_one
  delete_all k [] = pure true
  delete_all k (i ∷ is) = do gone ← delete_one k i; rest ← delete_all k is; pure (gone && rest)

  unfoldable pub cleanup_created_messages : Kconfig → Action (Context C) Bool
  unfolding delete_all
  cleanup_created_messages k = do
    found ← collect_run_messages_from_list k
    ids ← gets (λ x. x.created_ids)
    if found == 0 && length ids == 0 then pure true else do
      all_deleted ← delete_all k ids
      left ← collect_run_messages_from_list k
      pure (all_deleted && not (ltb 0 left))
