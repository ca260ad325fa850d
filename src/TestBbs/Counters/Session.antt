-- ===== src/TestBbs/Counters/Session.antt =====
-- test_bbs/main/main.c: reconnecting and commands leave the counters alone; ids are tracked
-- soundly.
use esp_tnc.Prelude.{refl, ℕ, ◌&&◌, List, [], ◌∷◌, Bytes}
use esp_tnc.TestBbs.Link.{Link}
use esp_tnc.TestBbs.Action.{modify, Keeps, Keeps-bind, Keeps-pure, pure, ◌>>=◌}
use esp_tnc.TestBbs.Context.{Context, Kconfig, track_created_id}
use esp_tnc.TestBbs.Consistent.{
  IsConsistent, IsConsistent-same, Keeps-modify, consistent_rules, track_created_id-IsConsistent,
}
use esp_tnc.TestBbs.Session.{
  flush_rx, send_text, connect_again, reconnect_session, shut_down, restart_transport, move_port,
  reconnect_as_local, reads_token, reads_prompt, reads_command_prompt, reads_config_prompt,
  capture_has, reconnect_and_capture_banner, run_cmd_expect_prompt, run_cmd_expect_config_prompt,
  track_all, collect_run_messages_from_list, resolve_posted_message_id, delete_one, delete_all,
  cleanup_created_messages,
}

module _ {C : Type 0} (ln : Link C) where
  pub flush_rx-IsConsistent : Keeps IsConsistent (flush_rx ln)
  unfolding flush_rx
  flush_rx-IsConsistent = search (consistent_rules) depth 40

  pub send_text-IsConsistent : (t : Bytes) → Keeps IsConsistent (send_text ln t)
  unfolding send_text
  send_text-IsConsistent t = search (consistent_rules) depth 40

  pub connect_again-IsConsistent :
      (timeout_ms : ℕ) → Keeps IsConsistent (connect_again ln timeout_ms)
  unfolding connect_again
  connect_again-IsConsistent timeout_ms = search (consistent_rules, flush_rx-IsConsistent) depth 40

  pub reconnect_session-IsConsistent :
      (timeout_ms : ℕ) → Keeps IsConsistent (reconnect_session ln timeout_ms)
  unfolding reconnect_session
  reconnect_session-IsConsistent timeout_ms =
      search (consistent_rules, flush_rx-IsConsistent, connect_again-IsConsistent) depth 40

  pub shut_down-IsConsistent : (timeout_ms : ℕ) → Keeps IsConsistent (shut_down ln timeout_ms)
  unfolding shut_down
  shut_down-IsConsistent timeout_ms = search (consistent_rules) depth 40

  pub restart_transport-IsConsistent : Keeps IsConsistent (restart_transport ln)
  unfolding restart_transport
  restart_transport-IsConsistent = search (consistent_rules) depth 40

  pub move_port-IsConsistent :
      (local_addr : Bytes) (timeout_ms : ℕ)
      → Keeps IsConsistent (move_port ln local_addr timeout_ms)
  unfolding move_port
  move_port-IsConsistent local_addr timeout_ms =
      search (consistent_rules, connect_again-IsConsistent) depth 40

  pub reconnect_as_local-IsConsistent :
      (local_addr : Bytes) (timeout_ms : ℕ)
      → Keeps IsConsistent (reconnect_as_local ln local_addr timeout_ms)
  unfolding reconnect_as_local
  reconnect_as_local-IsConsistent local_addr timeout_ms =
      search
        (
          consistent_rules, flush_rx-IsConsistent, shut_down-IsConsistent,
          restart_transport-IsConsistent, move_port-IsConsistent,
        )
        depth 40

  pub reads_token-IsConsistent :
      (k : Kconfig) (token : Bytes) → Keeps IsConsistent (reads_token ln k token)
  unfolding reads_token
  reads_token-IsConsistent k token = search (consistent_rules) depth 40

  pub reads_prompt-IsConsistent : (k : Kconfig) → Keeps IsConsistent (reads_prompt ln k)
  unfolding reads_prompt
  reads_prompt-IsConsistent k = search (consistent_rules) depth 40

  pub reads_command_prompt-IsConsistent :
      (timeout_ms : ℕ) → Keeps IsConsistent (reads_command_prompt ln timeout_ms)
  unfolding reads_command_prompt
  reads_command_prompt-IsConsistent timeout_ms = search (consistent_rules) depth 40

  pub reads_config_prompt-IsConsistent :
      (timeout_ms : ℕ) → Keeps IsConsistent (reads_config_prompt ln timeout_ms)
  unfolding reads_config_prompt
  reads_config_prompt-IsConsistent timeout_ms = search (consistent_rules) depth 40

  pub capture_has-IsConsistent : (needle : Bytes) → Keeps IsConsistent (capture_has ln needle)
  unfolding capture_has
  capture_has-IsConsistent needle = search (consistent_rules) depth 40

  pub reconnect_and_capture_banner-IsConsistent :
      (k : Kconfig) (timeout_ms : ℕ)
      → Keeps IsConsistent (reconnect_and_capture_banner ln k timeout_ms)
  unfolding reconnect_and_capture_banner
  reconnect_and_capture_banner-IsConsistent k timeout_ms =
      search (consistent_rules, reconnect_session-IsConsistent) depth 40

  pub run_cmd_expect_prompt-IsConsistent :
      (cmd : Bytes) (expect : Bytes) (timeout_ms : ℕ)
      → Keeps IsConsistent (run_cmd_expect_prompt ln cmd expect timeout_ms)
  unfolding run_cmd_expect_prompt
  run_cmd_expect_prompt-IsConsistent cmd expect timeout_ms = search (consistent_rules) depth 40

  pub run_cmd_expect_config_prompt-IsConsistent :
      (cmd : Bytes) (expect : Bytes) (timeout_ms : ℕ)
      → Keeps IsConsistent (run_cmd_expect_config_prompt ln cmd expect timeout_ms)
  unfolding run_cmd_expect_config_prompt
  run_cmd_expect_config_prompt-IsConsistent cmd expect timeout_ms =
      search (consistent_rules) depth 40

  track_all-IsConsistent : (is : List ℕ) → Keeps IsConsistent (track_all ln is)
  unfolding track_all
  track_all-IsConsistent [] = search consistent_rules
  track_all-IsConsistent (i ∷ is) =
      Keeps-bind (track_created_id i) (λ _. track_all ln is) (track_created_id-IsConsistent i)
        (λ _. track_all-IsConsistent is)

  pub collect_run_messages_from_list-IsConsistent :
      (k : Kconfig) → Keeps IsConsistent (collect_run_messages_from_list ln k)
  unfolding collect_run_messages_from_list
  collect_run_messages_from_list-IsConsistent k =
      search (consistent_rules, run_cmd_expect_prompt-IsConsistent, track_all-IsConsistent) depth 40

  pub posted-IsConsistent :
      (id : ℕ)
      → Keeps {S = Context C} IsConsistent (modify (λ x. record x { posted_message_id = id }))
  posted-IsConsistent id =
      Keeps-modify (λ x. record x { posted_message_id = id })
        (λ x h. IsConsistent-same x _ refl refl refl refl h)

  pub resolve_posted_message_id-IsConsistent :
      (k : Kconfig) → Keeps IsConsistent (resolve_posted_message_id ln k)
  unfolding resolve_posted_message_id
  resolve_posted_message_id-IsConsistent k =
      search (consistent_rules, collect_run_messages_from_list-IsConsistent, posted-IsConsistent)
        depth 40

  delete_one-IsConsistent : (k : Kconfig) (id : ℕ) → Keeps IsConsistent (delete_one ln k id)
  unfolding delete_one
  delete_one-IsConsistent k id =
      search (consistent_rules, run_cmd_expect_prompt-IsConsistent, capture_has-IsConsistent) depth
        40

  delete_all-IsConsistent : (k : Kconfig) (is : List ℕ) → Keeps IsConsistent (delete_all ln k is)
  unfolding delete_all
  delete_all-IsConsistent k [] = search consistent_rules
  delete_all-IsConsistent k (i ∷ is) =
      Keeps-bind (delete_one ln k i) (λ gone. delete_all ln k is >>= λ rest. pure (gone && rest))
        (delete_one-IsConsistent k i)
        (λ gone.
          Keeps-bind (delete_all ln k is) (λ rest. pure (gone && rest))
            (delete_all-IsConsistent k is) (λ rest. Keeps-pure (gone && rest)))

  pub cleanup_created_messages-IsConsistent :
      (k : Kconfig) → Keeps IsConsistent (cleanup_created_messages ln k)
  unfolding cleanup_created_messages
  cleanup_created_messages-IsConsistent k =
      search
        (consistent_rules, collect_run_messages_from_list-IsConsistent, delete_all-IsConsistent)
        depth 40

pub ruleset session_rules = (
  consistent_rules, flush_rx-IsConsistent, send_text-IsConsistent, reconnect_session-IsConsistent,
  reconnect_as_local-IsConsistent, reads_token-IsConsistent, reads_prompt-IsConsistent,
  reads_command_prompt-IsConsistent, reads_config_prompt-IsConsistent, capture_has-IsConsistent,
  reconnect_and_capture_banner-IsConsistent, run_cmd_expect_prompt-IsConsistent,
  run_cmd_expect_config_prompt-IsConsistent, resolve_posted_message_id-IsConsistent,
  cleanup_created_messages-IsConsistent, posted-IsConsistent,
)
