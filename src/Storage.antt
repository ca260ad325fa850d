-- ===== src/Storage.antt =====
-- main/bbs_storage.c and main/bbs_storage.h: the message store, an index in memory and on flash and
-- one file for each message.
pub mod Paths
pub mod Index
pub mod Records
pub mod Valid
pub mod Posting
pub mod Storing
pub mod Bodies
pub mod Deleting
pub mod Reload
pub mod Reboot
mod Tests
use mathlib.Core.Option
use esp_tnc.Prelude.{
  ℕ, zero, suc, ◌+◌, ◌-◌, ◌*◌, ◌/◌, ◌%◌, Bool, true, false, not, ◌&&◌, ◌||◌, Option, none, some,
  List, [], ◌∷◌, ◌++◌, Bytes, codes, strlcpy, ltb, leb, ◌==◌, if◌then◌else◌, length, get_elem?, set,
  take, drop, add32, u32_mod,
}
use esp_tnc.Esp.{EspErr, esp_ok, esp_fail, invalid_arg, invalid_state, not_found, is_ok}
use esp_tnc.Files.{Files, Io, open_read, open_write, write_all, unlink}
use Paths.{make_message_path}
use Index.{Message, Storage, max_config, index_save, index_load}

-- find_record_idx; `none` is -1.
unfoldable pub find_record_idx : ℕ → List Message → Option ℕ
find_record_idx id [] = none
find_record_idx id (m ∷ ms) = if m.id == id then some 0 else Option.map suc (find_record_idx id ms)

-- bbs_storage_find; `none` is NULL.
unfoldable pub find : Storage → ℕ → Option Message
find st id = elim (find_record_idx id st.records) [ none ↦ none | some i ↦ get_elem? st.records i ]

-- What the mount, stat and mkdir return.
pub record Mount : Type 0 where
  pub registered : EspErr  -- esp_vfs_littlefs_register
  pub has_dir : Bool  -- stat(BBS_DIR_PATH) == 0
  pub makes_dir : Bool  -- mkdir(BBS_DIR_PATH) == 0

abbrev is_invalid_state : EspErr → Bool
is_invalid_state invalid_state = true
is_invalid_state _ = false

unfoldable pub deinit : Storage → Storage
deinit st = if not st.mounted then st else record st { mounted = false }

ensure_dirs : Mount → EspErr
ensure_dirs m = if m.has_dir then esp_ok else if not m.makes_dir then esp_fail else esp_ok

-- The part of `bbs_storage_init` after the mount.
load_mounted : Io → Files → Mount → Storage → EspErr × Storage × Files
unfolding ensure_dirs deinit
load_mounted io fs m st =
    if not (is_ok (ensure_dirs m))
    then (ensure_dirs m, deinit st, fs)
    else let (err, st', fs') = index_load io fs st in
      if not (is_ok err) then (err, deinit st', fs') else (esp_ok, st', fs')

-- `none` is a NULL label, which stands for "bbs_data".
unfoldable pub init : Io → Files → Mount → Option Bytes → ℕ → EspErr × Storage × Files
unfolding load_mounted
init io fs m label max_messages =
    let st : Storage = record {
      mounted = false;
      max_messages =
          if max_messages == 0 || ltb max_config max_messages then max_config else max_messages;
      next_id = 0;
      records = [];
      partition_label = strlcpy 16 (elim label [ none ↦ codes "bbs_data" | some l ↦ l ]);
    } in
    if not (is_ok m.registered) && not (is_invalid_state m.registered)
    then (m.registered, st, fs)
    else load_mounted io fs m (record st { mounted = true })

-- The search for the record with the least id, from the record at `i` on.
unfoldable pub oldest_from : ℕ → ℕ → ℕ → List Message → ℕ × ℕ
oldest_from idx id i [] = (idx, id)
oldest_from idx id i (m ∷ ms) =
    oldest_from (if ltb m.id id then i else idx) (if ltb m.id id then m.id else id) (suc i) ms

-- Index and id of the oldest. A full store has a record: `max_messages` is at least 1.
unfoldable pub oldest : List Message → ℕ × ℕ
unfolding oldest_from
oldest [] = (0, 0)
oldest (m ∷ ms) = oldest_from 0 m.id 1 ms

-- What the caller of `bbs_storage_store_message` gives.
pub record Post : Type 0 where
  pub from : Bytes
  pub to : Bytes
  pub subject : Option Bytes  -- `none` is NULL
  pub body : Bytes
  pub flags : ℕ

-- The record of a post, at the log's time in milliseconds.
unfoldable pub message_of : ℕ → ℕ → Post → Message
message_of id ms p = record {
  id = id;
  from = strlcpy 7 p.from;
  to = strlcpy 7 p.to;
  subject = strlcpy 49 (elim p.subject [ none ↦ codes "(no subject)" | some s ↦ s ]);
  size = length p.body % u32_mod;
  timestamp = ms / 1000 % u32_mod;
  flags = p.flags;
}

-- Status, `*out_id` where it is written, the store and the files.
abbrev pub Stored : Type 0
Stored = EspErr × Option ℕ × Storage × Files

-- The index is saved; only then is the id given out.
unfoldable pub save_index : Io → Files → ℕ → Storage → Stored
save_index io fs id st =
    let (err, fs') = index_save io fs st.records in
    (err, (if is_ok err then some id else none), st, fs')

-- A full store: the oldest message's file is removed and its record replaced.
unfoldable pub replace_oldest : Io → Files → Message → Storage → Stored
unfolding save_index oldest
replace_oldest io fs m st =
    let (idx, id) = oldest st.records in
    save_index io (unlink io fs (make_message_path id)) m.id
      (record st { records = set st.records idx m })

-- The body is on flash: the record is put in the index.
unfoldable pub add_record : Io → Files → Message → Storage → Stored
unfolding replace_oldest save_index
add_record io fs m st =
    if leb st.max_messages (length st.records)
    then replace_oldest io fs m st
    else save_index io fs m.id (record st { records = st.records ++ (m ∷ []) })

-- The body has been written, as far as it went.
unfoldable pub check_body : Io → Message → ℕ → Storage → Files × ℕ → Stored
unfolding add_record
check_body io m body_len st (fs, wrote) =
    if not (wrote == body_len) then (esp_fail, none, st, fs) else add_record io fs m st

-- The id is used up, whatever happens to the file.
unfoldable pub write_message : Io → Files → Message → Bytes → Storage → Stored
unfolding check_body
write_message io fs m body st = elim (open_write io fs (make_message_path m.id)) [
  | none ↦ (esp_fail, none, st, fs)
  | some opened ↦
      check_body io m (length body) st (write_all io opened (make_message_path m.id) body)
]

unfoldable pub store_message : Io → Files → ℕ → Post → Storage → Stored
unfolding write_message
store_message io fs ms p st =
    if not st.mounted
    then (invalid_arg, none, st, fs)
    else write_message io fs (message_of st.next_id ms p) p.body
        (record st { next_id = add32 st.next_id 1 })

-- What is read into a buffer of `out_size` bytes; its length is `*out_len`.
unfoldable pub read_message : Io → Files → Storage → ℕ → ℕ → EspErr × Bytes
read_message io fs st id out_size = if out_size == 0 then (invalid_arg, []) else elim (find st id) [
  | none ↦ (not_found, [])
  | some m ↦ (elim (open_read io fs (make_message_path m.id)) [
    | none ↦ (esp_fail, [])
    | some body ↦ (esp_ok, take (out_size - 1) body)
  ])
]

-- Found at `i`: the file is removed, the records behind move up, and the index is saved.
unfoldable pub delete_at : Io → Files → Storage → ℕ → ℕ → EspErr × Storage × Files
delete_at io fs st id i =
    let st' : Storage = record st { records = take i st.records ++ drop (suc i) st.records } in
    let (err, fs') = index_save io (unlink io fs (make_message_path id)) st'.records in
    (err, st', fs')

unfoldable pub delete_message : Io → Files → Storage → ℕ → EspErr × Storage × Files
unfolding delete_at
delete_message io fs st id = elim (find_record_idx id st.records) [
  | none ↦ (not_found, st, fs)
  | some i ↦ delete_at io fs st id i
]

-- `esp_littlefs_info` gives its status, the total and what is used.
unfoldable pub free_bytes : EspErr × ℕ × ℕ → Storage → EspErr × ℕ
free_bytes (err, total, used) st =
    if not st.mounted
    then (esp_fail, 0)
    else if not (is_ok err)
    then (esp_fail, 0)
    else (esp_ok, (if ltb used total then total - used else 0))
