-- ===== src/Storage/Index.antt =====
-- bbs_storage.c: the message index and index.dat.
use esp_tnc.Prelude.{
  ℕ, zero, suc, ◌/◌, ◌%◌, Bool, true, false, none, some, List, [], ◌∷◌, ◌++◌, Bytes, c_str, ltb,
  leb, ◌==◌, if◌then◌else◌, length, take, drop, pad, le32, of_le32, add32,
}
use esp_tnc.Esp.{EspErr, esp_ok, esp_fail}
use esp_tnc.Files.{Files, Io, open_read, open_write, write_all}
use esp_tnc.Storage.Paths.{index_path}

-- CONFIG_BBS_MAX_MESSAGES
abbrev pub max_config : ℕ
max_config = 100

-- `bbs_message_index_t`; the three texts are C strings, `reserved` stays zero.
pub record Message : Type 0 where
  pub id : ℕ
  pub from : Bytes
  pub to : Bytes
  pub subject : Bytes
  pub size : ℕ
  pub timestamp : ℕ
  pub flags : ℕ

-- `bbs_storage_t`; `records` are the first `count` of the array.
pub record Storage : Type 0 where
  pub mounted : Bool
  pub max_messages : ℕ
  pub next_id : ℕ
  pub records : List Message
  pub partition_label : Bytes

-- sizeof(bbs_message_index_t): 67 bytes, one of padding, 12 bytes.
abbrev pub message_size : ℕ
message_size = 80

unfoldable pub encode : Message → Bytes
encode m =
    le32 m.id
    ++ (pad 7 m.from
        ++ (pad 7 m.to
            ++ (pad 49 m.subject
                ++ (0 ∷ (le32 m.size ++ (le32 m.timestamp ++ (m.flags % 256 ∷ 0 ∷ 0 ∷ 0 ∷ [])))))))

abbrev head_or_zero : Bytes → ℕ
head_or_zero [] = 0
head_or_zero (x ∷ s) = x

unfoldable pub decode : Bytes → Message
decode b =
    let after_id = drop 4 b in
    let after_from = drop 7 after_id in
    let after_to = drop 7 after_from in
    let at_size = drop 1 (drop 49 after_to) in
    record {
      id = of_le32 b;
      from = c_str (take 7 after_id);
      to = c_str (take 7 after_from);
      subject = c_str (take 49 after_to);
      size = of_le32 at_size;
      timestamp = of_le32 (drop 4 at_size);
      flags = head_or_zero (drop 4 (drop 4 at_size));
    }

unfoldable pub encode_all : List Message → Bytes
encode_all [] = []
encode_all (m ∷ ms) = encode m ++ encode_all ms

-- fwrite of the index to the opened file, then the check of the count.
unfoldable pub check_saved : ℕ → Files × ℕ → EspErr × Files
check_saved count (fs, stored) =
    if stored / message_size == count then (esp_ok, fs) else (esp_fail, fs)

unfoldable pub index_save : Io → Files → List Message → EspErr × Files
unfolding check_saved
index_save io fs records = elim (open_write io fs index_path) [
  | none ↦ (esp_fail, fs)
  | some opened ↦ check_saved (length records) (write_all io opened index_path (encode_all records))
]

-- if (rec.id >= st->next_id) st->next_id = rec.id + 1;
abbrev pub next_after : ℕ → ℕ → ℕ
next_after next id = if leb next id then add32 id 1 else next

-- The loop of `index_load`: at most `room` more records, from the rest `b` of the file. Each round
-- reads 80 bytes, so the file's length is fuel enough.
unfoldable pub load_records : ℕ → ℕ → Bytes → ℕ → List Message × ℕ
load_records zero room b next = ([], next)
load_records (suc fuel) zero b next = ([], next)
load_records (suc fuel) (suc room) b next = elim (ltb (length b) message_size) [
  | true ↦ ([], next)
  | false ↦ (elim ((decode b).id == 0) [
    | true ↦ load_records fuel (suc room) (drop message_size b) next
    | false ↦
        (let (rest, next') =
            load_records fuel room (drop message_size b) (next_after next (decode b).id) in
          (decode b ∷ rest, next'))
  ])
]

-- With no index yet, an empty one is written.
unfoldable pub index_load : Io → Files → Storage → EspErr × Storage × Files
unfolding index_save load_records
index_load io fs st = elim (open_read io fs index_path) [
  | none ↦
      (let (err, fs') = index_save io fs [] in (err, record st { records = []; next_id = 1 }, fs'))
  | some b ↦
      (let (records, next) = load_records (length b) st.max_messages b 1 in
        (esp_ok, record st { records = records; next_id = next }, fs))
]
