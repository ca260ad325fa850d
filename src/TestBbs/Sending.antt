-- ===== src/TestBbs/Sending.antt =====
-- test_bbs/main/main.c: sending with retries.
use esp_tnc.Prelude.{ℕ, Bool, Bytes, is_empty, if◌then◌else◌}
use esp_tnc.Esp.{EspErr, invalid_arg, is_ok}
use esp_tnc.Esp.Retry.{retry}
use esp_tnc.TestBbs.Link.{Link}

abbrev pub test_send_retry_max : ℕ
test_send_retry_max = 200

module _ {C : Type 0} (ln : Link C) where
  unfoldable pub send_phy_frame_with_retry : Bytes → C → EspErr × C
  send_phy_frame_with_retry frame c = retry (ln.phy_send frame) ln.delay test_send_retry_max c

  unfoldable pub send_conn_data_with_retry : Bytes → C → EspErr × C
  send_conn_data_with_retry d c =
      if is_empty d then (invalid_arg, c) else retry (ln.conn_send d) ln.delay test_send_retry_max c

  unfoldable pub send_text : Bytes → C → Bool × C
  unfolding send_conn_data_with_retry
  send_text t c = let (err, c') = send_conn_data_with_retry t c in (is_ok err, c')
