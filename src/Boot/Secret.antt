-- ===== src/Boot/Secret.antt =====
-- main/main.c: what app_main makes of the configured secret.
use esp_tnc.Prelude.{
  ◌<◌, ◌≤◌, ◌≡◌, refl, ◌∙◌, sym, ap, subst, true, false, some, [], Bytes, length, take_all,
  is_empty, arith, inl, inr, Bool-cases,
}
use esp_tnc.Esp.{esp_ok}
use esp_tnc.Files.{Files}
use esp_tnc.Auth.{
  Config, configured, configure, secret_is_valid, secret_is_empty, set_deferred_config,
  reset_session, clear_challenge,
}
use esp_tnc.Bbs.{BbsConfig, init, blank, set_texts, open_nvs, on_connect}
use esp_tnc.Bbs.Outside.{Platform}
use esp_tnc.Bbs.State.{Bbs, config}
use esp_tnc.Bbs.Sysop.{enter_config_mode}
use esp_tnc.Bbs.Messages.{send_banner}
use esp_tnc.Bbs.Commands.{cmd_config, cmd_sysop, bypass_if_empty}
use esp_tnc.Leds.{Gpio, AppLeds}
use esp_tnc.Worker.{Worker}
use esp_tnc.Boot.{
  Settings, Startup, bbs_sysop_secret_is_valid, startup_secret, auth_config, bbs_config, boot,
}
use esp_tnc.Boot.Running.{boot-Booted}

configured-secret :
    (cfg : Config) (s : Bytes) → cfg.secret ≡ some s → length s ≤ 256 → (configured cfg).secret ≡ s
unfolding configured
configured-secret cfg s h fits = rw h (take_all 256 s fits)

startup_secret-valid : (st : Settings) → bbs_sysop_secret_is_valid st (startup_secret st) ≡ true
unfolding startup_secret
startup_secret-valid st = elim (Bool-cases (bbs_sysop_secret_is_valid st st.sysop_secret)) [
  | inl good ↦ rw good good
  | inr bad ↦ rw bad (unfold bbs_sysop_secret_is_valid in refl)
]

module _ (st : Settings) (low : 0 < st.secret_min_len) (high : 0 < st.secret_max_len)
    (cap : st.secret_max_len ≤ 256) where
  limits :
      ((configured (auth_config st)).secret_min_len ≡ st.secret_min_len)
      × ((configured (auth_config st)).secret_max_len ≡ st.secret_max_len)
  unfolding configured auth_config
  limits = (ground arith, ground arith)

  fits : (s : Bytes) → bbs_sysop_secret_is_valid st s ≡ true → length s ≤ 256
  unfolding bbs_sysop_secret_is_valid
  fits s h = ground arith

  accepted :
      (s : Bytes)
      → bbs_sysop_secret_is_valid st s ≡ true
      → secret_is_valid (configured (auth_config st)) s ≡ true
  unfolding bbs_sysop_secret_is_valid secret_is_valid
  accepted s h = rw (limits.0, limits.1) h

  given : (configured (auth_config st)).secret ≡ startup_secret st
  given =
      configured-secret (auth_config st) (startup_secret st) (unfold auth_config in refl)
        (fits (startup_secret st) (startup_secret-valid st))

  valid_given :
      secret_is_valid (configured (auth_config st)) (configured (auth_config st)).secret ≡ true
  valid_given =
      subst (λ s. secret_is_valid (configured (auth_config st)) s ≡ true) (sym given)
        (accepted (startup_secret st) (startup_secret-valid st))

  -- With limits of the build that are within those of the session, no secret that is configured
  -- stops the board from starting: the session accepts the secret it is given, which is the
  -- configured one where that is valid.
  pub configure-startup_secret :
      ((configure (auth_config st)).0 ≡ esp_ok)
      × (bbs_sysop_secret_is_valid st st.sysop_secret ≡ true
          → (configure (auth_config st)).1.secret ≡ st.sysop_secret)
  unfolding configure
  configure-startup_secret = (
    rw (valid_given, configure) refl,
    λ good. rw (valid_given, configure) (given ∙ unfold startup_secret in rw good refl),
  )

module _ {C : Type 0} (pf : Platform C) where
  open_config :
      (b : Bbs C)
      → secret_is_empty b.sysop_auth ≡ true
      → pf.cfg_is_initialized b.outside ≡ true
      → ((cmd_config pf b).is_sysop ≡ true) × ((cmd_config pf b).input_mode ≡ config)
  unfolding cmd_config enter_config_mode bypass_if_empty set_deferred_config
  open_config b h ready = (ground arith, ground arith)

  open_login :
      (arg : Bytes) (b : Bbs C)
      → secret_is_empty b.sysop_auth ≡ true
      → (cmd_sysop pf arg b).is_sysop ≡ true
  unfolding cmd_sysop bypass_if_empty set_deferred_config
  open_login arg b h = ground arith

  connected-secret :
      (call : Bytes) (b : Bbs C) → (on_connect pf call b).sysop_auth.secret ≡ b.sysop_auth.secret
  unfolding on_connect send_banner reset_session clear_challenge
  connected-secret call b = ground arith

  init-secret :
      (cfg : BbsConfig) (c : C) (b : Bbs C)
      → init pf cfg c ≡ (esp_ok, b)
      → b.sysop_auth.secret ≡ (configured cfg.sysop_auth).secret
  unfolding init blank set_texts open_nvs
  init-secret cfg c b h = ground arith

  -- A configured secret that is not valid opens the board: when it has started, the first station
  -- that connects, whatever its callsign, is the sysop after the SYSOP command, with no challenge;
  -- and where the configuration module is ready, after CONFIG it is the sysop in the configuration
  -- mode.
  pub invalid_secret_opens :
      (gpio : Gpio) (st : Settings) (up : Startup) (leds : AppLeds) (files : Files) (c : C)
      (w : Worker C) (call arg : Bytes)
      → bbs_sysop_secret_is_valid st st.sysop_secret ≡ false
      → boot pf gpio st up leds files c ≡ some w
      → ((cmd_sysop pf arg (on_connect pf call w.bbs)).is_sysop ≡ true)
        × (pf.cfg_is_initialized (on_connect pf call w.bbs).outside ≡ true
            → ((cmd_config pf (on_connect pf call w.bbs)).is_sysop ≡ true)
              × ((cmd_config pf (on_connect pf call w.bbs)).input_mode ≡ config))
  unfolding startup_secret auth_config bbs_config
  invalid_secret_opens gpio st up leds files c w call arg bad h =
      let b = boot-Booted pf gpio st up leds files c w h in
      let given : startup_secret st ≡ [] = ground arith in
      let none_left : (on_connect pf call w.bbs).sysop_auth.secret ≡ [] =
        connected-secret call w.bbs
        ∙ init-secret (bbs_config st b.storage b.heard b.files) c w.bbs b.set_up
        ∙ empty_secret st given in
      let open_board : secret_is_empty (on_connect pf call w.bbs).sysop_auth ≡ true =
        ap (λ s. is_empty s) none_left in
      (
        open_login arg (on_connect pf call w.bbs) open_board,
        λ ready. open_config (on_connect pf call w.bbs) open_board ready,
      )
    where
      empty_secret :
          (st : Settings) → startup_secret st ≡ [] → (configured (auth_config st)).secret ≡ []
      empty_secret st given =
          configured-secret (auth_config st) [] (ap (λ s. some s) given) (omega arith)
