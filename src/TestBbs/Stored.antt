-- ===== src/TestBbs/Stored.antt =====
-- The id of a stored message, as test_bbs/main/main.c reads it out of what main/bbs.c confirms.
use esp_tnc.Prelude.{
  ℕ, ◌≤◌, ◌<◌, ◌≡◌, refl, ◌∙◌, ap, false, Option, none, some, [], ◌∷◌, ◌++◌, Bytes, codes,
  starts_with, Lacks, Lacks-append, Lacks-given, length, take_all, length-append, length-digits,
  decimal, append_assoc, u32_mod, arith,
}
use esp_tnc.Esp.{esp_ok}
use esp_tnc.Scanf.{space, number, sscanf, sscanf-space_number, Lacks-digits}
use esp_tnc.Bbs.Scanning.{skip_spaces}
use esp_tnc.Bbs.Sending.{cr}
use esp_tnc.Bbs.Messages.{stored_text}
use esp_tnc.TestBbs.Parsing.{parse_stored_message_id, last_match, first_number, stored_format}
use esp_tnc.TestBbs.Answers.{star}

abbrev stored_words : Bytes
stored_words = codes "*** Stored as message "

-- No match begins where there is no star.
last_match_none :
    (t s : Bytes) (last : Option Bytes) → Lacks star s → last_match (star ∷ t) last s ≡ last
unfolding last_match
last_match_none t [] last h = refl
last_match_none t (x ∷ s) last h = rw (missed, last_match) (last_match_none t s last h.1)
  where
    missed : starts_with (star ∷ t) (x ∷ s) ≡ false
    missed = unfold starts_with in ground (arith, h)

last_match_skip :
    (t pre s : Bytes) (last : Option Bytes)
    → Lacks star pre
    → last_match (star ∷ t) last (pre ++ s) ≡ last_match (star ∷ t) last s
unfolding last_match
last_match_skip t [] s last h = refl
last_match_skip t (x ∷ pre) s last h = rw (missed, last_match) (last_match_skip t pre s last h.1)
  where
    missed : starts_with (star ∷ t) (x ∷ (pre ++ s)) ≡ false
    missed = unfold starts_with in ground (arith, h)

last_match_at :
    (s : Bytes) (last : Option Bytes)
    → Lacks star s
    → last_match stored_words last (stored_words ++ s) ≡ some (stored_words ++ s)
last_match_at s last h =
    at
    ∙ last_match_none (codes "** Stored as message ") (codes " Stored as message " ++ s)
        (some (stored_words ++ s))
        (Lacks-append star (codes " Stored as message ") s
          (Lacks-given star (codes " Stored as message ") refl) h)
  where
    at :
        last_match stored_words last (stored_words ++ s)
        ≡ last_match stored_words (some (stored_words ++ s)) (codes " Stored as message " ++ s)
    at = unfold last_match in unfold starts_with in refl

-- From a capture in which the board confirms one message, and in which there is no other star, the
-- program reads the id under which the board stored it.
pub parse_stored_message_id-stored_text :
    (pre post : Bytes) (id : ℕ)
    → Lacks star pre
    → Lacks star post
    → id < u32_mod
    → parse_stored_message_id (pre ++ (stored_text esp_ok (some id) ++ post)) ≡ some id
parse_stored_message_id-stored_text pre post id before after h =
    ap (λ s. parse_stored_message_id (pre ++ s)) whole ∙ read
  where
    tail : Bytes
    tail = decimal id ++ (cr ++ post)

    whole : stored_text esp_ok (some id) ++ post ≡ stored_words ++ tail
    whole =
        unfold stored_text in
        ap (λ s. s ++ post) (take_all 79 (stored_words ++ (decimal id ++ cr)) fits)
        ∙ ap (λ s. stored_words ++ s) (append_assoc (decimal id) cr post)
      where
        fits : length (stored_words ++ (decimal id ++ cr)) ≤ 79
        fits = rw (length-append (decimal id)) (omega (arith, length-digits 10 id []))

    lacks : Lacks star tail
    lacks =
        Lacks-append star (decimal id) (cr ++ post) (Lacks-digits star 10 id [] refl tt)
          (refl, after)

    found :
        last_match stored_words none (pre ++ (stored_words ++ tail)) ≡ some (stored_words ++ tail)
    found =
        last_match_skip (codes "** Stored as message ") pre (stored_words ++ tail) none before
        ∙ last_match_at tail none lacks

    to_number :
        sscanf stored_format (stored_words ++ tail) ≡ sscanf (space ∷ number ∷ []) (32 ∷ tail)
    to_number = unfold sscanf in unfold skip_spaces in refl

    read : parse_stored_message_id (pre ++ (stored_words ++ tail)) ≡ some id
    read =
        unfold parse_stored_message_id in
        rw (found, parse_stored_message_id)
          (ap first_number (to_number ∙ sscanf-space_number [] id (cr ++ post) h refl)
            ∙ (unfold first_number in refl))
