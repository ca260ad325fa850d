-- ===== src/TestBbs/Counters/Config.antt =====
-- test_bbs/main/main.c: the tests of the config mode keep the counters consistent.
use esp_tnc.Prelude.{ℕ, Bool, Option, none, some, List, Bytes}
use esp_tnc.TestBbs.Link.{Link}
use esp_tnc.TestBbs.Action.{Keeps}
use esp_tnc.TestBbs.Context.{Kconfig}
use esp_tnc.TestBbs.Consistent.{IsConsistent}
use esp_tnc.TestBbs.Counters.Session.{session_rules}
use esp_tnc.TestBbs.Config.{
  recover, send_response, answer_with, answer_challenge, entered_at_once, no_challenge,
  on_challenge, enter_config, config_commands, run_config_mode_tests,
}

module _ {C : Type 0} (ln : Link C) (k : Kconfig) where
  recover-IsConsistent : (in_config_mode : Bool) → Keeps IsConsistent (recover ln k in_config_mode)
  unfolding recover
  recover-IsConsistent in_config_mode = search (session_rules) depth 60

  send_response-IsConsistent : (response : Bytes) → Keeps IsConsistent (send_response ln k response)
  unfolding send_response
  send_response-IsConsistent response = search (session_rules) depth 60

  answer_with-IsConsistent :
      (response : Option Bytes) → Keeps IsConsistent (answer_with ln k response)
  unfolding answer_with
  answer_with-IsConsistent none = search session_rules depth 60
  answer_with-IsConsistent (some response) = send_response-IsConsistent response

  answer_challenge-IsConsistent :
      (indices : List ℕ) → Keeps IsConsistent (answer_challenge ln k indices)
  unfolding answer_challenge
  answer_challenge-IsConsistent indices = search (session_rules, answer_with-IsConsistent) depth 60

  entered_at_once-IsConsistent : Keeps IsConsistent (entered_at_once ln k)
  unfolding entered_at_once
  entered_at_once-IsConsistent = search (session_rules) depth 60

  no_challenge-IsConsistent : Keeps IsConsistent (no_challenge ln k)
  unfolding no_challenge
  no_challenge-IsConsistent = search (session_rules, entered_at_once-IsConsistent) depth 60

  on_challenge-IsConsistent :
      (challenge : Option (List ℕ)) → Keeps IsConsistent (on_challenge ln k challenge)
  unfolding on_challenge
  on_challenge-IsConsistent none = no_challenge-IsConsistent
  on_challenge-IsConsistent (some indices) = answer_challenge-IsConsistent indices

  enter_config-IsConsistent : Keeps IsConsistent (enter_config ln k)
  unfolding enter_config
  enter_config-IsConsistent = search (session_rules, on_challenge-IsConsistent) depth 60

  config_commands-IsConsistent : Keeps IsConsistent (config_commands ln k)
  unfolding config_commands
  config_commands-IsConsistent = search (session_rules) depth 60

  pub run_config_mode_tests-IsConsistent : Keeps IsConsistent (run_config_mode_tests ln k)
  unfolding run_config_mode_tests
  run_config_mode_tests-IsConsistent =
      search
        (
          session_rules, enter_config-IsConsistent, config_commands-IsConsistent,
          recover-IsConsistent,
        )
        depth 60
