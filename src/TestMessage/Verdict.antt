-- ===== src/TestMessage/Verdict.antt =====
-- test_message/main/main.c: when the test of a message that is read back passes.
use esp_tnc.Prelude.{
  ℕ, ◌*◌, ◌≡◌, refl, sym, subst, ◌↔◌, List, Bool, true, [], ◌++◌, Bytes, codes, decimal,
}
use esp_tnc.TestBbs.Link.{Link}
use esp_tnc.TestBbs.Action.{◌>>=◌, gets, modify}
use esp_tnc.TestBbs.Context.{record_result, with_result}
use esp_tnc.TestMessage.Bodies.{
  body_lines, all_found, AllOccur, AreLines, join, all_found_iff, body_lines_lem,
}
use esp_tnc.TestMessage.Entries.{Run, on_base}
use esp_tnc.TestMessage.Script.{MsgConfig, msg_run_cmd, verify_message}

-- A verdict on a capture: whether each line of the body stands in it.
abbrev pub IsVerdict : Bytes → Bytes → Bool → Type 0
IsVerdict body capture pass =
    (lines : List Bytes) × (join lines ≡ body)
    × AreLines lines
    × ((pass ≡ true) ↔ AllOccur lines capture)

module _ {C : Type 0} (ln : Link C) (k : MsgConfig) (i : ℕ) (r : Run C) where
  -- The capture when the R command is over.
  abbrev pub capture_read : Bytes
  capture_read =
      (msg_run_cmd ln k (codes "R " ++ (decimal (r.messages i).id ++ codes "\r")) []
        (k.step_timeout_ms * 2) r).1.base.capture

  verdict :
      (verify_message ln k i r).1.base.last.pass
      ≡ all_found capture_read (body_lines (r.messages i).body)
  unfolding verify_message ◌>>=◌ gets modify on_base record_result with_result
  verdict = refl

  -- The test Read message passes exactly where each line of the body stands somewhere in the
  -- capture that the R command leaves; the lines are the body in its order, cut into pieces of 64
  -- bytes with a last one of 1 to 64.
  pub verify_message_passes_iff :
      IsVerdict (r.messages i).body capture_read (verify_message ln k i r).1.base.last.pass
  verify_message_passes_iff =
      let lines = body_lines (r.messages i).body in
      let (whole, cut) = body_lines_lem (r.messages i).body in
      (
        lines,
        whole,
        cut,
        subst (λ b. (b ≡ true) ↔ AllOccur lines capture_read) (sym verdict)
            (all_found_iff capture_read lines),
      )
