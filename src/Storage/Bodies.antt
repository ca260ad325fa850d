-- ===== src/Storage/Bodies.antt =====
-- bbs_storage.c: the files of the message bodies.
use esp_tnc.Prelude.{
  ℕ, ◌-◌, ◌/◌, ◌<◌, ◌≡◌, refl, sym, subst, ap, ◌∙◌, true, false, some, List, [], ◌∷◌, ◌++◌, Bytes,
  leb, ◌==◌, ==_iff, length, set, take, arith, inl, inr, Bool-cases, Option-cases, u32_max, u32_mod,
}
use esp_tnc.Esp.{esp_ok}
use esp_tnc.Files.{Files, Io, open_read, open_write, write_all, unlink}
use esp_tnc.Files.Laws.{LeftOf, Closes, left_all, open_write_ne, write_all_ne, unlink_ne}
use esp_tnc.Storage.{
  find, oldest, Post, message_of, save_index, add_record, store_message, read_message,
}
use esp_tnc.Storage.Paths.{make_message_path, path-ne, index-ne-path, index_path}
use esp_tnc.Storage.Index.{Message, Storage, index_save, check_saved, encode_all}
use esp_tnc.Storage.Records.{AllBelow, AllBelow-at, oldest_lem}
use esp_tnc.Storage.Valid.{IsValid}
use esp_tnc.Storage.Storing.{
  write_message-cases, numbered, store_message-write_message, store_message_ok,
}

files-check_saved : (n : ℕ) (w : Files × ℕ) → (check_saved n w).1 ≡ w.0
unfolding check_saved
files-check_saved n (fs, k) = elim (Bool-cases (k / 80 == n)) [
  | inl all ↦ rw (all, check_saved) refl
  | inr part ↦ rw (part, check_saved) refl
]

-- Saving the index leaves every message's file alone.
pub index_save-body :
    (io : Io) (fs : Files) (ms : List Message) (id : ℕ)
    → (index_save io fs ms).1 (make_message_path id) ≡ fs (make_message_path id)
unfolding index_save
index_save-body io fs ms id = elim (Option-cases (open_write io fs index_path)) [
  | inl fails ↦ rw (fails, index_save) refl
  | inr (opened, works) ↦
      rw (works, index_save)
        (ap (λ (f : Files). f (make_message_path id))
            (files-check_saved (length ms) (write_all io opened index_path (encode_all ms)))
          ∙ write_all_ne index_path (make_message_path id) (index-ne-path id) io opened
              (encode_all ms)
          ∙ open_write_ne index_path (make_message_path id) (index-ne-path id) io fs opened works)
]

save_index-body :
    (io : Io) (fs : Files) (i : ℕ) (st : Storage) (id : ℕ)
    → (save_index io fs i st).3 (make_message_path id) ≡ fs (make_message_path id)
unfolding save_index
save_index-body io fs i st id = index_save-body io fs st.records id

-- The oldest message gives up its file, which is not the new one's.
add_record-body :
    (io : Io) (fs : Files) (m : Message) (st : Storage)
    → 0 < st.max_messages
    → AllBelow m.id st.records
    → m.id < u32_mod
    → (add_record io fs m st).3 (make_message_path m.id) ≡ fs (make_message_path m.id)
unfolding add_record
add_record-body io fs m st pos above word =
    elim (Bool-cases (leb st.max_messages (length st.records))) [
      | inr room ↦
          rw room (save_index-body io fs m.id (record st { records = st.records ++ (m ∷ []) }) m.id)
      | inl full ↦
          (let (old, at, same, least) = oldest_lem st.records (ground arith) in
            let older : (oldest st.records).1 < m.id =
              rw same at (AllBelow-at (oldest st.records).0 m.id old st.records above at) in
            rw full (
              save_index-body io (unlink io fs (make_message_path (oldest st.records).1)) m.id
                (record st { records = set st.records (oldest st.records).0 m }) m.id
              ∙ unlink_ne (make_message_path (oldest st.records).1) (make_message_path m.id)
                  (path-ne (oldest st.records).1 m.id (omega arith) word (omega arith)) io fs))
    ]

module _ (io : Io) (fs : Files) (ms : ℕ) (p : Post) (st : Storage) (v : IsValid st)
    (fits : st.next_id < u32_max) (on : st.mounted ≡ true)
    (good : (store_message io fs ms p st).0 ≡ esp_ok) where
  store_message-body :
      LeftOf io
        (make_message_path st.next_id)
        p.body
        ((store_message io fs ms p st).3 (make_message_path st.next_id))
  store_message-body =
      rw (store_message-write_message io fs ms p st on)
        (elim (write_message-cases io fs m p.body (numbered st)) [
          | inl refused ↦
              absurd (refused.0 (rw (store_message-write_message io fs ms p st on) at good))
          | inr (fs', file, same) ↦ rw same (
              unfold message_of in
              subst (λ c. LeftOf io (make_message_path st.next_id) p.body c)
                (sym (add_record-body io fs' m (numbered st) v.positive v.below (omega arith)))
                file)
        ])
    where
      m : Message
      m = message_of st.next_id ms p

read_found :
    (io : Io) (fs : Files) (st : Storage) (id out_size : ℕ) (m : Message) (body : Bytes)
    → find st id ≡ some m
    → io.reads (make_message_path m.id) fs ≡ true
    → fs (make_message_path m.id) ≡ some body
    → 0 < out_size
    → read_message io fs st id out_size ≡ (esp_ok, take (out_size - 1) body)
unfolding read_message open_read
read_found io fs st id out_size m body found reads file room =
    let some_room : (out_size == 0) ≡ false = ground arith in
    rw (some_room, read_message)
      (rw (found, read_message) (rw (reads, read_message) (rw (file, read_message) refl)))

-- A message that was stored, where fclose of its file works, can be read back: into a buffer of
-- `out_size` bytes comes the body of the post, cut to what the buffer holds before its NUL,
-- whenever its file can be opened.
pub read-store_message :
    (io io' : Io) (fs : Files) (ms : ℕ) (p : Post) (st : Storage) (out_size : ℕ)
    → IsValid st
    → st.next_id < u32_max
    → st.mounted ≡ true
    → Closes io (make_message_path st.next_id)
    → (store_message io fs ms p st).0 ≡ esp_ok
    → io'.reads (make_message_path st.next_id) (store_message io fs ms p st).3 ≡ true
    → 0 < out_size
    → read_message io'
        (store_message io fs ms p st).3
        (store_message io fs ms p st).2
        st.next_id
        out_size
      ≡ (esp_ok, take (out_size - 1) p.body)
unfolding message_of
read-store_message io io' fs ms p st out_size v fits on closes good reads room =
    read_found io' (store_message io fs ms p st).3 (store_message io fs ms p st).2 st.next_id
      out_size (message_of st.next_id ms p) p.body found reads
      (left_all io (make_message_path st.next_id) p.body _ closes
        (store_message-body io fs ms p st v fits on good))
      room
  where
    self : (st.next_id == st.next_id) ≡ true
    self = (==_iff st.next_id st.next_id).1 refl

    found : find (store_message io fs ms p st).2 st.next_id ≡ some (message_of st.next_id ms p)
    found = (store_message_ok ms p st v fits io fs on good).1.2 st.next_id ∙ rw self
