-- ===== src/Leds.antt =====
-- main/main.c: the levels of the power and the BBS LED.
pub mod Pins
use esp_tnc.Prelude.{
  ℕ, Bool, true, false, not, ◌&&◌, ◌||◌, ℤ, pos, negsuc, is_nat, ltb, ◌==◌, if◌then◌else◌,
}
use esp_tnc.Esp.{EspErr, is_ok}

-- `led_mode_t`
pub data LedMode : Type 0 where
  led_off led_on led_blink : LedMode

-- `app_leds_t`, and the level of each pin as `gpio_set_level` has left it.
pub record AppLeds : Type 0 where
  pub initialized : Bool
  pub blink_phase_on : Bool
  pub pwr_pin : ℤ
  pub bbs_pin : ℤ
  pub pwr_mode : LedMode
  pub bbs_mode : LedMode
  pub levels : ℕ → Bool

-- GPIO_NUM_MAX and GPIO_IS_VALID_OUTPUT_GPIO.
pub record Gpio : Type 0 where
  pub gpio_num_max : ℕ
  pub is_output : ℕ → Bool

-- After the memset.
abbrev pub led_zeroed : AppLeds
led_zeroed = record {
  initialized = false;
  blink_phase_on = false;
  pwr_pin = pos 0;
  bbs_pin = pos 0;
  pwr_mode = led_off;
  bbs_mode = led_off;
  levels = λ pin. false;
}

unfoldable pub led_mode_level : AppLeds → LedMode → Bool
led_mode_level l led_on = true
led_mode_level l led_blink = l.blink_phase_on
led_mode_level l led_off = false

-- gpio_set_level; only a pin that is valid gets here.
unfoldable pub set_level : ℤ → Bool → AppLeds → AppLeds
set_level pin level l = record l { levels = λ n. if is_nat pin n then level else l.levels n }

-- `ax25_cfg_is_safety_timer_active` is what the caller passes.
unfoldable pub led_refresh_pwr_mode : Bool → AppLeds → AppLeds
led_refresh_pwr_mode safety_timer l = record l {
  pwr_mode = if safety_timer then led_blink else led_on;
}

module _ (gpio : Gpio) where
  -- GPIO 0 is the strapping pin.
  unfoldable pub led_gpio_is_valid : ℤ → Bool
  led_gpio_is_valid (negsuc n) = false
  led_gpio_is_valid (pos n) =
      if n == 0 || not (ltb n gpio.gpio_num_max) then false else gpio.is_output n

  -- `gpio_num` is what `ax25_cfg_get_int` reads; -1 disables the LED.
  unfoldable pub led_resolve_gpio : ℤ → ℤ → ℤ
  unfolding led_gpio_is_valid
  led_resolve_gpio gpio_num fallback =
      if led_gpio_is_valid gpio_num
      then gpio_num
      else if led_gpio_is_valid fallback
      then fallback
      else negsuc 0

  unfoldable pub led_apply_outputs : AppLeds → AppLeds
  unfolding led_gpio_is_valid led_mode_level set_level
  led_apply_outputs l =
      if not l.initialized
      then l
      else let l' =
          if led_gpio_is_valid l.pwr_pin
          then set_level l.pwr_pin (led_mode_level l l.pwr_mode) l
          else l in
        if led_gpio_is_valid l.bbs_pin
        then set_level l.bbs_pin (led_mode_level l l.bbs_mode) l'
        else l'

  -- From the two configured numbers, the two of the build, what `gpio_config` returns, and the
  -- levels that the pins have.
  unfoldable pub led_init_from_config : ℤ → ℤ → ℤ → ℤ → EspErr → (ℕ → Bool) → AppLeds
  unfolding led_resolve_gpio led_apply_outputs led_gpio_is_valid
  led_init_from_config pwr bbs pwr_fallback bbs_fallback configured levels =
      let pins : AppLeds = record led_zeroed {
        pwr_pin = led_resolve_gpio pwr pwr_fallback;
        bbs_pin = led_resolve_gpio bbs bbs_fallback;
        levels = levels;
      } in
      if not (led_gpio_is_valid pins.pwr_pin) && not (led_gpio_is_valid pins.bbs_pin)
      then pins
      else if not (is_ok configured)
      then pins
      else led_apply_outputs (record pins {
        blink_phase_on = false;
        pwr_mode = led_on;
        bbs_mode = led_off;
        initialized = true;
      })
