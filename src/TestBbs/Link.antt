-- ===== src/TestBbs/Link.antt =====
-- What test_bbs/main/main.c calls outside this repository: the KISS link, the AX.25 connection, the
-- router, the queue and buffer of what is received, and the event group.
use esp_tnc.Prelude.{ℕ, Bool, Bytes}
use esp_tnc.Esp.{EspErr}

-- How `buffer_get_byte` ends: with 0, when the time is over, or with less.
pub data Ending : Type 0 where
  timed_out failed : Ending

-- `C` is the state of all of these.
pub record Link (C : Type 0) : Type 0 where
  pub max_info : ℕ  -- AX25_MAX_INFO_LEN
  pub phy_send : Bytes → C → EspErr × C  -- ax25_phy_kiss_tcp_client_send, or that of the UART
  pub conn_send : Bytes → C → EspErr × C  -- ax25_conn_send_data
  pub delay : C → C  -- vTaskDelay of 10 ms
  -- What the calls of `buffer_get_byte` give in turn with a deadline so many milliseconds away: the
  -- bytes that come, and how it ends; and the state after so many of these calls.
  pub incoming : ℕ → C → Bytes × Ending
  pub after_reads : ℕ → ℕ → C → C
  pub flush : C → C  -- xQueueReset and buffer_flush
  pub clear_events : Bool → Bool → C → C  -- of the bits EVT_CONNECTED and EVT_DISCONNECTED
  pub wait_connected : ℕ → C → Bool × C  -- xEventGroupWaitBits, the bit cleared
  pub wait_disconnected : ℕ → C → Bool × C
  pub see_connected : ℕ → C → Bool × C  -- the same, the bit kept
  pub see_disconnected : ℕ → C → Bool × C
  pub set_finished : C → C  -- the bit EVT_FINISHED
  pub shutdown : C → EspErr × C  -- ax25_conn_shutdown
  pub connect : C → EspErr × C  -- ax25_conn_connect, to the remote address
  pub conn_deinit : C → C
  pub conn_init : Bytes → C → EspErr × C  -- with the local address
  pub has_tcp : Bool  -- CONFIG_TEST_BBS_KISS_TCP, and ctx->tcp_phy is set
  pub tcp_deinit : C → C
  pub tcp_init : C → EspErr × C
  pub tcp_connected : C → Bool × C  -- phy->sock >= 0 under the mutex, or false without it
  pub tcp_wait_ms : ℕ  -- connect_timeout_ms + reconnect_delay_ms
  pub poll : C → C  -- vTaskDelay of 50 ms
  pub ticks : C → ℕ  -- xTaskGetTickCount, a uint32_t
  pub ticks_of : ℕ → ℕ  -- pdMS_TO_TICKS
  pub remove_port : C → EspErr × C  -- of the app_port
  pub register_port : Bytes → C → EspErr × C  -- the app_port, with the local address
