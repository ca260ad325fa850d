-- ===== src/TestBbs/Answers.antt =====
-- The program's reading of the board's answers: test_bbs/main/main.c against main/bbs.c.
use esp_tnc.Prelude.{
  ℕ, zero, suc, ◌≤◌, ◌<◌, ◌≡◌, refl, ◌∙◌, ap, false, none, some, List, [], ◌∷◌, ◌++◌, Bytes, codes,
  starts_with, strstr, strstr-append, strstr_skip, strstr-none, Lacks, Lacks-append, Lacks-given,
  ◌==◌, length, take, take_all, length-append, length-digits, decimal, append_assoc, u32_mod, arith,
}
use esp_tnc.Scanf.{
  Item, space, number, text, sscanf, sscanf-number, sscanf-space_number, Lacks-digits,
}
use esp_tnc.Bbs.Scanning.{skip_spaces}
use esp_tnc.Bbs.Sending.{cr}
use esp_tnc.Bbs.State.{Bbs}
use esp_tnc.Bbs.Messages.{banner_line}
use esp_tnc.TestBbs.Parsing.{parse_banner_counts, two_counts, summary_format}

abbrev pub star : ℕ
star = 42

-- The line for messages, without the cut to 127 bytes, which it does not reach.
abbrev you_have : ℕ → ℕ → Bytes
you_have total unread =
    codes "*** You have "
    ++ (decimal total ++ (codes " messages (" ++ (decimal unread ++ codes " new)\r")))

module _ {C : Type 0} where
  banner_line-some :
      (b : Bbs C) (total unread : ℕ)
      → (total == 0) ≡ false
      → banner_line b (total, unread) ≡ you_have total unread
  unfolding banner_line
  banner_line-some b total unread some_there =
      rw some_there (take_all 127 (you_have total unread) fits)
    where
      fits : length (you_have total unread) ≤ 127
      fits =
          rw (length-append (decimal total), length-append (decimal unread))
            (omega (arith, length-digits 10 total [], length-digits 10 unread []))

-- The line from the first number on, and what follows it.
abbrev numbers_on : ℕ → ℕ → Bytes → Bytes
numbers_on total unread post =
    decimal total ++ (codes " messages (" ++ (decimal unread ++ (codes " new)\r" ++ post)))

you_have-append :
    (total unread : ℕ) (post : Bytes)
    → you_have total unread ++ post ≡ codes "*** You have " ++ numbers_on total unread post
you_have-append total unread post =
    ap (λ s. codes "*** You have " ++ s)
      (append_assoc (decimal total) (codes " messages (" ++ (decimal unread ++ codes " new)\r"))
          post
        ∙ ap (λ s. decimal total ++ (codes " messages (" ++ s))
            (append_assoc (decimal unread) (codes " new)\r") post))

Lacks-numbers_on :
    (total unread : ℕ) (post : Bytes) → Lacks star post → Lacks star (numbers_on total unread post)
Lacks-numbers_on total unread post after =
    let new : Lacks star (codes " new)\r" ++ post) =
      Lacks-append star (codes " new)\r") post (Lacks-given star (codes " new)\r") refl) after in
    let second : Lacks star (decimal unread ++ (codes " new)\r" ++ post)) =
      Lacks-append star (decimal unread) (codes " new)\r" ++ post)
        (Lacks-digits star 10 unread [] refl tt) new in
    let words : Lacks star (codes " messages (" ++ (decimal unread ++ (codes " new)\r" ++ post))) =
      Lacks-append star (codes " messages (") (decimal unread ++ (codes " new)\r" ++ post))
        (Lacks-given star (codes " messages (") refl) second in
    Lacks-append star (decimal total)
      (codes " messages (" ++ (decimal unread ++ (codes " new)\r" ++ post)))
      (Lacks-digits star 10 total [] refl tt) words

-- This line is not taken for the other one.
no_messages_none :
    (s : Bytes) → Lacks star s → strstr (codes "*** You" ++ s) (codes "*** No messages for ") ≡ none
unfolding strstr
no_messages_none s h = unfold starts_with in strstr-none star (codes "** No messages for ") s h

two_numbers :
    (total unread : ℕ) (post : Bytes)
    → total < u32_mod
    → unread < u32_mod
    → sscanf summary_format (codes "*** You have " ++ numbers_on total unread post)
      ≡ total ∷ unread ∷ []
two_numbers total unread post h k =
    to_first
    ∙ sscanf-space_number after_first total
        (codes " messages (" ++ (decimal unread ++ (codes " new)\r" ++ post))) h refl
    ∙ ap (λ ns. total ∷ ns)
        (to_second
          ∙ sscanf-number (text (codes " new)")) unread (codes " new)\r" ++ post) k refl
          ∙ ap (λ ns. unread ∷ ns) to_end)
  where
    after_first : List Item
    after_first = text (codes " messages (") ++ (number ∷ text (codes " new)"))

    to_first :
        sscanf summary_format (codes "*** You have " ++ numbers_on total unread post)
        ≡ sscanf (space ∷ number ∷ after_first) (32 ∷ numbers_on total unread post)
    to_first = unfold sscanf in unfold skip_spaces in refl

    to_second :
        sscanf after_first (codes " messages (" ++ (decimal unread ++ (codes " new)\r" ++ post)))
        ≡ sscanf (number ∷ text (codes " new)")) (decimal unread ++ (codes " new)\r" ++ post))
    to_second = unfold sscanf in unfold skip_spaces in refl

    to_end : sscanf (text (codes " new)")) (codes " new)\r" ++ post) ≡ []
    to_end = unfold sscanf in unfold skip_spaces in refl

-- What a capture holds before a line and behind it does not matter, if it has no star in it.
module _ {C : Type 0} (b : Bbs C) (pre post : Bytes) (before : Lacks star pre)
    (after : Lacks star post) where
  some_messages_read :
      (total unread : ℕ)
      → total < u32_mod
      → unread < u32_mod
      → parse_banner_counts (pre ++ (codes "*** You have " ++ numbers_on total unread post))
        ≡ some (total, unread)
  unfolding parse_banner_counts two_counts
  some_messages_read total unread h k =
      let tail : Bytes = codes " have " ++ numbers_on total unread post in
      let lacks : Lacks star tail =
        Lacks-append star (codes " have ") (numbers_on total unread post)
          (Lacks-given star (codes " have ") refl) (Lacks-numbers_on total unread post after) in
      let other =
        strstr_skip star (codes "** No messages for ") pre (codes "*** You" ++ tail) before
        ∙ no_messages_none tail lacks in
      let found =
        strstr_skip star (codes "** You have ") pre (codes "*** You" ++ tail) before
        ∙ strstr-append (codes "*** You have ") (numbers_on total unread post) in
      rw (other, parse_banner_counts)
        (rw (found, parse_banner_counts) (ap two_counts (two_numbers total unread post h k)))

  none_read :
      (s : Bytes) → parse_banner_counts (pre ++ (codes "*** No messages for " ++ s)) ≡ some (0, 0)
  unfolding parse_banner_counts
  none_read s =
      rw
        (
          strstr_skip star (codes "** No messages for ") pre (codes "*** No messages for " ++ s)
                before
              ∙ strstr-append (codes "*** No messages for ") s,
          parse_banner_counts,
        )
        refl

  -- From a capture with the board's banner line somewhere in it, and with no other star than those
  -- of this line, the program reads the very counts that the board wrote: how many messages there
  -- are, if the number fits 32 bits, and how many of these are new.
  pub parse_banner_counts-banner_line :
      (total unread : ℕ)
      → total < u32_mod
      → unread ≤ total
      → parse_banner_counts (pre ++ (banner_line b (total, unread) ++ post)) ≡ some (total, unread)
  parse_banner_counts-banner_line zero unread h k =
      unfold banner_line in
      none_read (take 107 (b.remote_callsign ++ cr) ++ post) ∙ ap (λ n. some (0, n)) (omega arith)
  parse_banner_counts-banner_line (suc n) unread h k =
      ap (λ s. parse_banner_counts (pre ++ (s ++ post)))
        (banner_line-some b (suc n) unread (ground arith))
      ∙ ap (λ s. parse_banner_counts (pre ++ s)) (you_have-append (suc n) unread post)
      ∙ some_messages_read (suc n) unread h (omega arith)
