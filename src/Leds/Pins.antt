-- ===== src/Leds/Pins.antt =====
-- main/main.c: which pins the LEDs drive, and how.
use esp_tnc.Prelude.{ℕ, ◌≡◌, ◌≢◌, ◌↔◌, true, ℤ, pos, negsuc, is_nat, arith}
use esp_tnc.Leds.{Gpio, AppLeds, led_gpio_is_valid, led_apply_outputs, led_mode_level, set_level}

is_nat_iff : (p : ℤ) (n : ℕ) → (is_nat p n ≡ true) ↔ (p ≡ pos n)
is_nat_iff (pos m) n = ground arith
is_nat_iff (negsuc m) n = ground arith

pub led_apply_outputs-keeps :
    (gpio : Gpio) (l : AppLeds)
    → ((led_apply_outputs gpio l).initialized ≡ l.initialized)
      × ((led_apply_outputs gpio l).pwr_pin ≡ l.pwr_pin)
      × ((led_apply_outputs gpio l).bbs_pin ≡ l.bbs_pin)
      × ((led_apply_outputs gpio l).blink_phase_on ≡ l.blink_phase_on)
unfolding led_apply_outputs set_level
led_apply_outputs-keeps gpio l = (ground arith, ground arith, ground arith, ground arith)

-- The level of every pin once the LEDs are set up: the BBS LED's pin shows its mode, the power
-- LED's pin its own unless the two share a pin, and each other pin is as it was.
pub led_apply_outputs-levels :
    (gpio : Gpio) (l : AppLeds) (n : ℕ)
    → l.initialized ≡ true
    → (led_gpio_is_valid gpio (pos n) ≡ true
        → l.bbs_pin ≡ pos n
        → (led_apply_outputs gpio l).levels n ≡ led_mode_level l l.bbs_mode)
      × (led_gpio_is_valid gpio (pos n) ≡ true
          → l.pwr_pin ≡ pos n
          → l.bbs_pin ≢ pos n
          → (led_apply_outputs gpio l).levels n ≡ led_mode_level l l.pwr_mode)
      × (l.bbs_pin ≢ pos n → l.pwr_pin ≢ pos n → (led_apply_outputs gpio l).levels n ≡ l.levels n)
unfolding led_apply_outputs set_level
led_apply_outputs-levels gpio l n set_up = (
  λ valid at. ground (arith, is_nat_iff l.bbs_pin n),
  λ valid at other. ground (arith, is_nat_iff l.bbs_pin n, is_nat_iff l.pwr_pin n),
  λ other other'. ground (arith, is_nat_iff l.bbs_pin n, is_nat_iff l.pwr_pin n),
)
