-- ===== src/Bbs/Outside.antt =====
-- What main/bbs.c calls outside this repository: the AX.25 connection, NVS, the clock, the random
-- numbers, the configuration module and the KISS UART.
use esp_tnc.Prelude.{ℕ, Bool, Bytes, List}
use esp_tnc.Esp.{EspErr}
use esp_tnc.Files.{Io}

-- `C` is the state of all of these. What the configuration module prints goes through
-- `bbs_cfg_output_cb` to the connection, which is a part of `C`.
pub record Platform (C : Type 0) : Type 0 where
  pub max_info : ℕ  -- AX25_MAX_INFO_LEN
  pub send_data : Bytes → C → EspErr × C  -- ax25_conn_send_data
  pub delay : C → C  -- vTaskDelay of 10 ms
  pub shutdown : C → C  -- ax25_conn_shutdown
  pub now_ms : C → ℕ  -- the tick count in milliseconds, a uint32_t
  pub timer_us : C → ℕ  -- esp_timer_get_time
  pub log_ms : C → ℕ  -- esp_log_timestamp
  pub random : C → List ℕ × C  -- the numbers esp_random returns while one challenge is drawn
  pub nvs_open : Bytes → C → EspErr × C
  pub nvs_close : C → C
  pub nvs_get_u32 : Bytes → C → EspErr × ℕ
  pub nvs_set_u32 : Bytes → ℕ → C → EspErr × C
  pub nvs_commit : C → EspErr × C
  pub cfg_is_initialized : C → Bool
  pub cfg_set_output : C → C
  pub cfg_handle_command : Bytes → C → Bool × C
  pub set_rx_tap : C → C
  pub clear_rx_tap : C → C
  pub uart_write_raw : Bytes → C → EspErr × C
  pub littlefs_info : C → EspErr × ℕ × ℕ  -- its status, the total and what is used
  pub io : Io
