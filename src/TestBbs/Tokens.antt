-- ===== src/TestBbs/Tokens.antt =====
-- test_bbs/main/main.c: the window finds the first place where a token ends.
use esp_tnc.Prelude.{ℕ, ◌-◌, ◌≤◌, ◌<◌, ◌≡◌, Bool, true, false, ◌++◌, Bytes, length, take, drop, ◌⊎◌}
use esp_tnc.Esp.{EspErr, esp_ok}
use esp_tnc.TestBbs.Link.{Ending, Link}
use esp_tnc.TestBbs.Reading.{ending_error}

-- The last `n` bytes.
abbrev last : ℕ → Bytes → Bytes
last n s = drop (length s - n) s

-- How a loop ends that tests all that has been read, `seen` and more: where the test first holds,
-- or with the bytes, if it holds nowhere.
pub record Reads (found : Bytes → Bool) (e : Ending) (seen bs : Bytes) (r : EspErr × ℕ)
    : Type 0 where
  pub within : r.1 ≤ length bs
  pub not_before : (n : ℕ) → 0 < n → n < r.1 → found (seen ++ take n bs) ≡ false
  pub at_end :
      ((r.0 ≡ esp_ok) × (0 < r.1) × (found (seen ++ take r.1 bs) ≡ true))
      ⊎ ((r.0 ≡ ending_error e)
          × (r.1 ≡ length bs)
          × (0 < r.1 → found (seen ++ take r.1 bs) ≡ false))
