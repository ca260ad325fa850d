-- ===== src/Bbs/Messages.antt =====
-- main/bbs.c: who may see a message, and the list, read, kill and post of messages.
use esp_tnc.Prelude.{
  ℕ, ◌+◌, ◌-◌, ◌/◌, ◌%◌, Bool, true, false, not, ◌&&◌, ◌||◌, Option, none, some, List, [], ◌∷◌,
  ◌++◌, Bytes, codes, strlcpy, str_eq, decimal, ltb, ◌==◌, if◌then◌else◌, length, drop, replicate,
  is_empty,
}
use esp_tnc.Esp.{EspErr, nvs_not_found, is_ok}
use esp_tnc.Storage.{find, Post, store_message, read_message, delete_message}
use esp_tnc.Storage.Index.{Message}
use esp_tnc.Bbs.Outside.{Platform}
use esp_tnc.Bbs.Sending.{cr, Tx, tx_append, tx_flush}
use esp_tnc.Bbs.State.{command, Bbs, get_prompt_text, send_text, send_texts, send_prompt}

-- flags & BBS_MSG_FLAG_PRIVATE
abbrev pub is_private : Message → Bool
is_private m = m.flags % 2 == 1

-- flags & BBS_MSG_FLAG_BULLETIN
abbrev pub is_bulletin : Message → Bool
is_bulletin m = m.flags / 2 % 2 == 1

abbrev not_found_text : Bytes
not_found_text = codes "*** Message not found\r"

abbrev separator : Bytes
separator = codes "----------------------------------------\r"

-- "%4lu" and "%-15s"
abbrev pad_left : ℕ → Bytes → Bytes
pad_left w s = replicate (w - length s) 32 ++ s

abbrev pub pad_right : ℕ → Bytes → Bytes
pad_right w s = s ++ replicate (w - length s) 32

-- One line of the list, in 192 bytes.
unfoldable pub list_line : Message → Bytes
list_line m = strlcpy 192 (
    pad_left 4 (decimal m.id)
    ++ (codes " "
        ++ (pad_right 15 m.from
            ++ (codes " "
                ++ (pad_right 15 m.to
                    ++ (codes " "
                        ++ ((if is_private m then b'P' else b'-')
                            ∷ (if is_bulletin m then b'B' else b'-')
                            ∷ (codes "    " ++ (m.subject ++ cr)))))))))

-- The first of the records shown; a `limit` of 0 shows all.
unfoldable pub list_start : ℕ → ℕ → ℕ
list_start limit count = if ltb 0 limit && ltb limit count then count - limit else 0

-- snprintf(key, 15, "lr_%s", base_call)
abbrev pub last_read_key : Bytes → Bytes
last_read_key call = strlcpy 15 (codes "lr_" ++ call)

-- sizeof(bbs->read_body_buf)
abbrev pub read_size : ℕ
read_size = 4160

unfoldable pub message_head : Message → Bytes
message_head m = strlcpy 192 (
    codes "Msg "
    ++ (decimal m.id
        ++ (codes " From:"
            ++ (m.from ++ (codes " To:" ++ (m.to ++ (codes " Subj:" ++ (m.subject ++ cr))))))))

-- The line on how storing went; `*id` is 0 where it was not written.
unfoldable pub stored_text : EspErr → Option ℕ → Bytes
stored_text err id =
    if is_ok err
    then strlcpy 80
        (codes "*** Stored as message " ++ (decimal (elim id [ none ↦ 0 | some i ↦ i ]) ++ cr))
    else codes "*** Store failed\r"

abbrev pub is_not_found : EspErr → Bool
is_not_found nvs_not_found = true
is_not_found _ = false

module _ {C : Type 0} where
  unfoldable pub is_related_to_user : Bbs C → Message → Bool
  is_related_to_user b m = str_eq m.from b.remote_callsign || str_eq m.to b.remote_callsign

  unfoldable pub is_readable_for_user : Bbs C → Message → Bool
  unfolding is_related_to_user
  is_readable_for_user b m =
      if is_bulletin m then true else if b.is_sysop then true else is_related_to_user b m

  -- Whether the list skips the message.
  unfoldable pub is_hidden : Bool → Bbs C → Message → Bool
  is_hidden mine_only b m =
      if mine_only
      then not (is_related_to_user b m)
      else not (is_readable_for_user b m) && not (is_related_to_user b m)

  -- May this user kill the message?
  unfoldable pub may_kill : Bbs C → Message → Bool
  may_kill b m = not (
      not b.is_sysop
      && (not (str_eq m.from b.remote_callsign) && not (str_eq m.to b.remote_callsign)))

  abbrev pub pending_post : Bbs C → Post
  pending_post b = record {
    from = b.remote_callsign;
    to = b.pending_to;
    subject = some b.pending_subject;
    body = b.pending_body;
    flags = b.pending_flags;
  }

  -- The loop of `bbs_send_banner`: how many messages the user may read, and how many are new.
  unfoldable pub count_messages : Bbs C → ℕ → List Message → ℕ × ℕ → ℕ × ℕ
  count_messages b last_read [] (total, unread) = (total, unread)
  count_messages b last_read (m ∷ ms) (total, unread) = count_messages b last_read ms (
      if not (is_readable_for_user b m)
      then (total, unread)
      else (total + 1, (if ltb last_read m.id then unread + 1 else unread)))

  unfoldable pub banner_line : Bbs C → ℕ × ℕ → Bytes
  banner_line b (total, unread) = strlcpy 128 (
      if total == 0
      then codes "*** No messages for " ++ (b.remote_callsign ++ cr)
      else codes "*** You have "
        ++ (decimal total ++ (codes " messages (" ++ (decimal unread ++ codes " new)\r"))))

  -- The loop of `bbs_has_unread_messages`.
  unfoldable pub any_unread : Bbs C → ℕ → List Message → Bool
  any_unread b last_read [] = false
  any_unread b last_read (m ∷ ms) = elim (is_readable_for_user b m && ltb last_read m.id) [
    | true ↦ true
    | false ↦ any_unread b last_read ms
  ]

  module _ (pf : Platform C) where
    -- The loop of `list_messages`: what is buffered, and `shown`.
    unfoldable pub list_records : Bool → Bbs C → List Message → Tx pf → ℕ → Tx pf × ℕ
    list_records mine_only b [] tx shown = (tx, shown)
    list_records mine_only b (m ∷ ms) tx shown =
        list_records mine_only b ms
          (if is_hidden mine_only b m then tx else tx_append pf (list_line m) tx)
          (if is_hidden mine_only b m then shown else shown + 1)

    -- The lines that were buffered are dropped if none is shown.
    unfoldable pub list_messages : ℕ → Bool → Bbs C → Bbs C
    unfolding list_records list_start is_hidden
    list_messages limit mine_only b =
        if length b.storage.records == 0
        then send_text pf (codes "*** No messages\r") b
        else let (tx, shown) =
            list_records mine_only b
              (drop (list_start limit (length b.storage.records)) b.storage.records)
              (tx_append pf (codes "   # From            To              Flags Subject\r")
                ([], b.outside))
              0 in
          if shown == 0
          then send_text pf (codes "*** No readable messages\r") (record b { outside = tx.1 })
          else record b { outside = (tx_flush pf tx).1 }

    -- The status, and the value, which stays 0 where the call fails.
    unfoldable pub get_last_read : Bbs C → EspErr × ℕ
    get_last_read b =
        let (err, id) = pf.nvs_get_u32 (last_read_key b.remote_callsign) b.outside in
        (err, (if is_ok err then id else 0))

    unfoldable pub set_last_read : ℕ → Bbs C → Bbs C
    set_last_read id b =
        let (err, c) = pf.nvs_set_u32 (last_read_key b.remote_callsign) id b.outside in
        if is_ok err then record b { outside = (pf.nvs_commit c).1 } else record b { outside = c }

    -- The message has been read: it is shown, and noted as the last one read if it is newer.
    unfoldable pub show_message : ℕ → Message → Bytes → Bbs C → Bbs C
    unfolding message_head get_last_read set_last_read
    show_message id m text b =
        let b' = send_texts pf (message_head m ∷ separator ∷ text ∷ separator ∷ []) b in
        if ltb (get_last_read b').1 id then set_last_read id b' else b'

    unfoldable pub read_found : ℕ → Message → Bbs C → Bbs C
    unfolding show_message
    read_found id m b =
        if not (is_readable_for_user b m)
        then send_text pf (codes "*** Access denied\r") b
        else let (err, text) = read_message pf.io b.files b.storage id read_size in
          if not (is_ok err)
          then send_text pf (codes "*** Failed to read message\r") b
          else show_message id m text b

    unfoldable pub cmd_read : ℕ → Bbs C → Bbs C
    unfolding read_found
    cmd_read id b = elim (find b.storage id) [
      | none ↦ send_text pf not_found_text b
      | some m ↦ read_found id m b
    ]

    unfoldable pub kill_found : ℕ → Message → Bbs C → Bbs C
    unfolding may_kill
    kill_found id m b =
        if not (may_kill b m)
        then send_text pf (codes "*** Kill denied\r") b
        else let (err, st, fs) = delete_message pf.io b.files b.storage id in
          if is_ok err
          then send_text pf (codes "*** Message deleted\r") (record b { storage = st; files = fs })
          else send_text pf (codes "*** Delete failed\r") (record b { storage = st; files = fs })

    unfoldable pub cmd_kill : ℕ → Bbs C → Bbs C
    unfolding kill_found
    cmd_kill id b = elim (find b.storage id) [
      | none ↦ send_text pf not_found_text b
      | some m ↦ kill_found id m b
    ]

    unfoldable pub finish_post : Bbs C → Bbs C
    unfolding stored_text
    finish_post b =
        let (err, id, st, fs) =
          store_message pf.io b.files (pf.log_ms b.outside) (pending_post b) b.storage in
        send_prompt pf
          (record (send_text pf (stored_text err id) (record b { storage = st; files = fs })) {
            input_mode = command;
            pending_body = [];
          })

    unfoldable pub send_banner : Bbs C → Bbs C
    unfolding banner_line count_messages
    send_banner b =
        send_texts pf
          (b.greeting_text
            ∷ cr
            ∷ banner_line b (count_messages b (get_last_read b).1 b.storage.records (0, 0))
            ∷ get_prompt_text b
            ∷ cr
            ∷ [])
          b

    unfoldable pub has_unread_messages : Bbs C → Bool
    unfolding any_unread
    has_unread_messages b =
        if not b.initialized || is_empty b.remote_callsign
        then false
        else let (err, last_read) = get_last_read b in
          if not (is_ok err) && not (is_not_found err)
          then false
          else any_unread b last_read b.storage.records
