-- ===== src/TestMessage/Tests.antt =====
-- The theorem on the check of a message at a concrete run.
use esp_tnc.Prelude.{ℕ, true, codes}
use esp_tnc.Samples.{board, context}
use esp_tnc.TestMessage.Entries.{Run}
use esp_tnc.TestMessage.Script.{MsgConfig, verify_message}
use esp_tnc.TestMessage.Verdict.{IsVerdict, capture_read, verify_message_passes_iff}

abbrev msg_config : MsgConfig
msg_config = record {
  step_timeout_ms = 5000;
  connect_timeout_ms = 10000;
  message_count = 3;
  max_body_size = 1024;
  has_memory = true;
}

-- One message was posted.
abbrev posted_run : Run ℕ
posted_run = record {
  base = context;
  messages = λ i. record { id = 1; body = codes "THE QUICK BROWN FOX 0123" };
  bbs_body_limit = 0;
  random = λ i. i;
}

verify_message_passes_iff_example :
    IsVerdict
      (codes "THE QUICK BROWN FOX 0123")
      (capture_read board msg_config 0 posted_run)
      (verify_message board msg_config 0 posted_run).1.base.last.pass
verify_message_passes_iff_example = verify_message_passes_iff board msg_config 0 posted_run
