-- ===== src/TestMessage/Entries.antt =====
-- test_message/main/main.c: the messages of a run, beside the context that it shares with test_bbs.
use esp_tnc.Prelude.{ℕ, Bytes, ◌==◌, if◌then◌else◌}
use esp_tnc.TestBbs.Action.{Action}
use esp_tnc.TestBbs.Context.{Context}

-- `msg_entry_t`
pub record MsgEntry : Type 0 where
  pub id : ℕ
  pub body : Bytes

-- `app_ctx_t`: what test_bbs has in it too, the messages and the board's limit; and the results of
-- esp_random that are to come, the next one under 0.
pub record Run (C : Type 0) : Type 0 where
  pub base : Context C
  pub messages : ℕ → MsgEntry
  pub bbs_body_limit : ℕ
  pub random : ℕ → ℕ

module _ {C : Type 0} where
  -- What both programs do, on the part that both have.
  unfoldable pub on_base : {A : Type 0} → Action (Context C) A → Action (Run C) A
  on_base m r = let (a, x) = m r.base in (a, record r { base = x })

  unfoldable pub put_entry : ℕ → MsgEntry → Run C → Run C
  put_entry i e r = record r { messages = λ j. if i == j then e else r.messages j }
