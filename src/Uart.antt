-- ===== src/Uart.antt =====
-- main/main.c: the KISS UART's port of the router, and the digipeater's use of it.
use esp_tnc.Prelude.{ℕ, Bool, if◌then◌else◌}
use esp_tnc.Esp.{EspErr}
use esp_tnc.Esp.Retry.{retry, Retried, retry-Retried}
use esp_tnc.Agwpe.{AgwpeServer, AgwpePool, notify_clients}

-- The UART's driver and the router, over the state `U` of both, for frames `F`.
pub record UartPhy (F U : Type 0) : Type 0 where
  pub uart_send : F → U → EspErr × U  -- ax25_phy_kiss_uart_send
  pub delay : U → U  -- vTaskDelay of 10 ms
  pub router_send : F → U → EspErr × U  -- ax25_router_send, to the UART's port
  pub is_ui : F → Bool  -- frame->type == AX25_FRAME_UI

abbrev pub uart_send_retry_max : ℕ
uart_send_retry_max = 20

module _ {F U : Type 0} (phy : UartPhy F U) where
  unfoldable pub send_uart_frame_with_retry : F → U → EspErr × U
  send_uart_frame_with_retry frame u = retry (phy.uart_send frame) phy.delay uart_send_retry_max u

  unfoldable pub uart_on_frame : F → U → U
  uart_on_frame frame u = (phy.router_send frame u).1

  unfoldable pub digipeater_tx_cb : F → U → EspErr × U
  unfolding send_uart_frame_with_retry
  digipeater_tx_cb frame u = send_uart_frame_with_retry frame u

  -- Whether it could be sent or not, a UI frame is shown to the AGWPE clients.
  unfoldable pub uart_port_frame_cb :
      {A : Type 0} → AgwpeServer F A → F → U × AgwpePool A → U × AgwpePool A
  unfolding send_uart_frame_with_retry
  uart_port_frame_cb sv frame (u, p) = (
    (send_uart_frame_with_retry frame u).1,
    if phy.is_ui frame then record p { server = notify_clients sv frame p.max_clients 0 p } else p,
  )

  -- The outcome of sending a frame, whatever the driver does: some attempts find its queue full,
  -- each after a delay; the first of twenty that does not decides, with its own status; and if all
  -- twenty find it full, the status is ESP_ERR_NO_MEM.
  pub send_uart_frame-Retried :
      (frame : F) (u : U)
      → Retried
          (phy.uart_send frame)
          phy.delay
          uart_send_retry_max
          u
          (send_uart_frame_with_retry frame u)
  unfolding send_uart_frame_with_retry
  send_uart_frame-Retried frame u =
      retry-Retried (phy.uart_send frame) phy.delay uart_send_retry_max u
