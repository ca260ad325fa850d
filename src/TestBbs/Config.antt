-- ===== src/TestBbs/Config.antt =====
-- test_bbs/main/main.c: `run_config_mode_tests`.
use esp_tnc.Prelude.{
  ℕ, Bool, true, false, not, ◌&&◌, Option, none, some, List, ◌++◌, Bytes, codes, take, is_empty,
  if◌then◌else◌,
}
use esp_tnc.TestBbs.Link.{Link}
use esp_tnc.TestBbs.Parsing.{parse_sysop_challenge, build_sysop_response}
use esp_tnc.TestBbs.Action.{Action, pure, gets, ◌>>=◌, ◌>>◌, and_then, when}
use esp_tnc.TestBbs.Context.{Context, Kconfig, record_result}
use esp_tnc.TestBbs.Session.{
  flush_rx, send_text, reconnect_session, reads_token, reads_command_prompt, reads_config_prompt,
  capture_has, run_cmd_expect_config_prompt,
}

module _ {C : Type 0} (ln : Link C) (k : Kconfig) where
  abbrev auth_expected : Bool
  auth_expected = not (is_empty k.sysop_secret)

  abbrev entry_name : Bytes
  entry_name = if auth_expected then codes "CONFIG auth entry" else codes "CONFIG no-auth entry"

  -- What stands behind the label `recover`.
  unfoldable pub recover : Bool → Action (Context C) (Unit {0})
  recover in_config_mode = do
    left ← if in_config_mode then send_text ln (codes "exit\r") else pure false
    if left then (do reads_command_prompt ln k.step_timeout_ms; pure tt) else do
      again ← reconnect_session ln k.connect_timeout_ms
      when again (do reads_command_prompt ln k.step_timeout_ms; pure tt)

  -- Each way into the config mode gives: whether the tests go on, and whether it was entered.
  unfoldable pub send_response : Bytes → Action (Context C) (Bool × Bool)
  send_response response = do
    ok ← send_text ln (response ++ codes "\r")
    ok ← and_then ok (reads_config_prompt ln k.step_timeout_ms)
    entered ← capture_has ln (codes "*** Entering config mode")
    authenticated ← capture_has ln (codes "*** SYSOP authenticated")
    record_result (codes "CONFIG auth entry") (ok && authenticated && (ok && entered)) (
        if ok
        then codes "challenge answered and config prompt received"
        else codes "challenge response rejected or config prompt missing")
    pure (ok && entered, ok && entered)

  unfoldable pub answer_with : Option Bytes → Action (Context C) (Bool × Bool)
  unfolding send_response
  answer_with none = do
    record_result (codes "CONFIG auth entry") false
        (codes "unable to build SYSOP response from TEST_BBS_SYSOP_SECRET")
    pure (false, false)
  answer_with (some response) = send_response response

  unfoldable pub answer_challenge : List ℕ → Action (Context C) (Bool × Bool)
  unfolding answer_with
  answer_challenge indices =
      if not auth_expected
      then (do
        record_result (codes "CONFIG no-auth entry") true (
            codes
              "challenge returned; set TEST_BBS_SYSOP_SECRET to fully exercise CONFIG auth flow")
        pure (false, false))
      else answer_with (build_sysop_response k.sysop_secret indices)

  unfoldable pub entered_at_once : Action (Context C) (Bool × Bool)
  entered_at_once =
      if auth_expected
      then (do
        record_result (codes "CONFIG auth entry") false
            (codes "entered config mode without challenge while TEST_BBS_SYSOP_SECRET is set")
        ok ← reads_config_prompt ln k.step_timeout_ms
        pure (false, ok))
      else do
        ok ← reads_config_prompt ln k.step_timeout_ms
        record_result (codes "CONFIG no-auth entry") ok (
            if ok
            then codes "entered config mode without SYSOP challenge"
            else codes "config prompt missing after entry banner")
        pure (ok, ok)

  unfoldable pub no_challenge : Action (Context C) (Bool × Bool)
  unfolding entered_at_once
  no_challenge = do
    entered ← capture_has ln (codes "*** Entering config mode")
    if entered then entered_at_once else do
      capture ← gets (λ x. x.capture)
      record_result entry_name false (codes "unexpected CONFIG response: " ++ take 80 capture)
      pure (false, false)

  unfoldable pub on_challenge : Option (List ℕ) → Action (Context C) (Bool × Bool)
  unfolding no_challenge answer_challenge
  on_challenge none = no_challenge
  on_challenge (some indices) = answer_challenge indices

  unfoldable pub enter_config : Action (Context C) (Bool × Bool)
  unfolding on_challenge
  enter_config = do
    flush_rx ln
    ok ← send_text ln (codes "CONFIG\r")
    ok ← and_then ok (reads_token ln k (codes "\r"))
    if not ok
        then (do
          record_result entry_name false (codes "timeout waiting for CONFIG response")
          pure (false, false))
        else do challenge ← gets (λ x. parse_sysop_challenge x.capture); on_challenge challenge

  -- In config mode.
  unfoldable pub config_commands : Action (Context C) (Unit {0})
  config_commands = do
    ok ←
        run_cmd_expect_config_prompt ln (codes "get bbs.callsign\r") (codes "bbs.callsign=")
          k.step_timeout_ms
    named ← capture_has ln k.remote_callsign
    record_result (codes "CONFIG get bbs.callsign") (ok && named) (
        if ok && named
        then codes "read-only config query succeeded"
        else codes "missing bbs.callsign output")
    ok ← send_text ln (codes "exit\r")
    ok ← and_then ok (reads_command_prompt ln k.step_timeout_ms)
    left ← capture_has ln (codes "*** Exiting config mode")
    record_result (codes "CONFIG exit") (ok && left)
        (if ok && left then codes "returned to BBS prompt" else codes "failed to leave config mode")

  unfoldable pub run_config_mode_tests : Action (Context C) (Unit {0})
  unfolding enter_config config_commands recover
  run_config_mode_tests = do
    entry ← enter_config
    if entry.0 then config_commands else recover entry.1
