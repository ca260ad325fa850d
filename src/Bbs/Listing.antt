-- ===== src/Bbs/Listing.antt =====
-- main/bbs.c: what the commands L, LL and LM show.
use esp_tnc.Prelude.{
  ℕ, zero, suc, ◌+◌, ◌-◌, ◌<◌, ◌≡◌, refl, ◌∙◌, ap, Bool, true, false, not, ◌||◌, List, [], ◌∷◌,
  Bytes, codes, length, drop, ltb, ◌==◌, if◌then◌else◌, map, arith, inl, inr, Bool-cases, ◌⊎◌,
}
use esp_tnc.Storage.Index.{Message}
use esp_tnc.Bbs.Outside.{Platform}
use esp_tnc.Bbs.Sending.{Tx, tx_append, tx_append_all, send_buffered}
use esp_tnc.Bbs.State.{Bbs}
use esp_tnc.Bbs.Messages.{
  is_bulletin, is_related_to_user, is_readable_for_user, is_hidden, list_start, list_line,
  list_records, list_messages,
}

-- LM is for the messages from or to the user; the others show bulletins too, and the sysop
-- everything.
abbrev pub may_see : {C : Type 0} → Bool → Bbs C → Message → Bool
may_see mine_only b m =
    if mine_only
    then is_related_to_user b m
    else is_bulletin m || (b.is_sysop || is_related_to_user b m)

abbrev pub visible : {C : Type 0} → Bool → Bbs C → List Message → List Message
visible mine_only b [] = []
visible mine_only b (m ∷ ms) =
    if may_see mine_only b m then m ∷ visible mine_only b ms else visible mine_only b ms

-- The newest `limit` of the records, or all of them.
abbrev pub newest : ℕ → List Message → List Message
newest limit ms = drop (if ltb 0 limit then length ms - limit else 0) ms

abbrev pub list_header : Bytes
list_header = codes "   # From            To              Flags Subject\r"

module _ {C : Type 0} (pf : Platform C) where
  is_hidden_iff :
      (mine_only : Bool) (b : Bbs C) (m : Message)
      → is_hidden mine_only b m ≡ not (may_see mine_only b m)
  unfolding is_hidden is_readable_for_user
  is_hidden_iff mine_only b m = ground arith

  list_records_lem :
      (mine_only : Bool) (b : Bbs C) (ms : List Message) (tx : Tx pf) (shown : ℕ)
      → list_records pf mine_only b ms tx shown ≡ (
        tx_append_all pf (map list_line (visible mine_only b ms)) tx,
        shown + length (visible mine_only b ms),
      )
  unfolding list_records tx_append_all
  list_records_lem mine_only b [] tx shown = ap (λ n. (tx, n)) (omega arith)
  list_records_lem mine_only b (m ∷ ms) tx shown = elim (Bool-cases (may_see mine_only b m)) [
    | inl seen ↦
        (let plain : is_hidden mine_only b m ≡ false = is_hidden_iff mine_only b m ∙ ap not seen in
          rw (plain, seen)
            (list_records_lem mine_only b ms (tx_append pf (list_line m) tx) (shown + 1)
              ∙ ap
                  (λ n. (
                    tx_append_all pf (map list_line (visible mine_only b ms))
                        (tx_append pf (list_line m) tx),
                    n,
                  ))
                  (omega arith)))
    | inr unseen ↦
        (let hidden : is_hidden mine_only b m ≡ true =
            is_hidden_iff mine_only b m ∙ ap not unseen in
          rw (hidden, unseen) (list_records_lem mine_only b ms tx shown))
  ]

  list_start_lem :
      (limit : ℕ) (ms : List Message) → drop (list_start limit (length ms)) ms ≡ newest limit ms
  unfolding list_start
  list_start_lem limit ms = ap (λ n. drop n ms) (ground arith)

  none_newest : (limit : ℕ) (ms : List Message) → (length ms == 0) ≡ true → newest limit ms ≡ []
  none_newest limit [] e = drop_none (if ltb 0 limit then 0 - limit else 0)
    where
      drop_none : (n : ℕ) → drop {A = Message} n [] ≡ []
      drop_none zero = refl
      drop_none (suc n) = refl
  none_newest limit (m ∷ ms) e = ground arith

  -- Where there is a message to see among the newest `limit` of all messages, readable or not, or
  -- among all for a limit of 0, the list is the header and one line for each of these that the user
  -- may see, in the order of the index, and nothing else changes.
  pub list_messages_lem :
      (limit : ℕ) (mine_only : Bool) (b : Bbs C)
      → 0 < length (visible mine_only b (newest limit b.storage.records))
      → list_messages pf limit mine_only b ≡ record b {
        outside =
            send_buffered pf
              (list_header ∷ map list_line (visible mine_only b (newest limit b.storage.records)))
              b.outside;
      }
  unfolding list_messages send_buffered tx_append_all
  list_messages_lem limit mine_only b some_seen =
      let ms = b.storage.records in
      let vis = visible mine_only b (newest limit ms) in
      let kept : (length ms == 0) ≡ false = not_none (Bool-cases (length ms == 0)) in
      let shown : (0 + length vis == 0) ≡ false = ground arith in
      rw kept (
        rw
          (
            list_start_lem limit ms,
            list_records_lem mine_only b (newest limit ms)
                (tx_append pf list_header ([], b.outside)) 0,
          )
          (rw shown refl))
    where
      not_none :
          ((length b.storage.records == 0) ≡ true) ⊎ ((length b.storage.records == 0) ≡ false)
          → (length b.storage.records == 0) ≡ false
      not_none (inr e) = e
      not_none (inl e) = absurd (
          omega (
            arith,
            ap (λ l. length (visible mine_only b l)) (none_newest limit b.storage.records e),
          ))
