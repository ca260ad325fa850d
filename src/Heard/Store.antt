-- ===== src/Heard/Store.antt =====
-- main/bbs_heard.c: heard.dat, the list on flash.
use esp_tnc.Prelude.{
  ℕ, zero, suc, ◌/◌, Bool, true, false, not, ◌&&◌, none, some, List, [], ◌∷◌, ◌++◌, Bytes, codes,
  c_str, is_empty, ltb, ◌==◌, if◌then◌else◌, length, take, drop, u32_max, sub32, pad, le32, of_le32,
}
use esp_tnc.Esp.{EspErr, esp_ok, esp_fail, invalid_arg}
use esp_tnc.Files.{Files, Io, open_read, open_write, write_all, unlink, rename}
use esp_tnc.Heard.{Entry, Heard, heard_max, seconds}

abbrev pub data_path : Bytes
data_path = codes "/bbsfs/bbs/heard.dat"

abbrev pub temp_path : Bytes
temp_path = codes "/bbsfs/bbs/heard.tmp"

-- sizeof(bbs_heard_entry_t)
abbrev pub entry_size : ℕ
entry_size = 24

-- The struct as fwrite stores it: 16 bytes of callsign, two words.
unfoldable pub encode : Entry → Bytes
encode e = pad 16 e.callsign ++ (le32 e.last_heard_unix ++ le32 e.bucket_timestamp)

unfoldable pub decode : Bytes → Entry
decode b = record {
  callsign = c_str (take 16 b);
  last_heard_unix = of_le32 (drop 16 b);
  bucket_timestamp = of_le32 (drop 20 b);
}

unfoldable pub encode_all : List Entry → Bytes
encode_all [] = []
encode_all (e ∷ es) = encode e ++ encode_all es

-- The marks of an entry heard before this boot.
abbrev pub pre_boot : Entry → Entry
pre_boot e = record e { last_heard_unix = u32_max; bucket_timestamp = u32_max }

-- The loop of `bbs_heard_load`: at most `room` more entries, from the rest `b` of the file. Each
-- round reads 24 bytes, so the file's length is fuel enough.
unfoldable pub read_entries : ℕ → ℕ → Bytes → List Entry
read_entries zero room b = []
read_entries (suc fuel) zero b = []
read_entries (suc fuel) (suc room) b = elim (ltb (length b) entry_size) [
  | true ↦ []
  | false ↦ (elim (is_empty (decode b).callsign) [
    | true ↦ read_entries fuel (suc room) (drop entry_size b)
    | false ↦ pre_boot (decode b) ∷ read_entries fuel room (drop entry_size b)
  ])
]

unfoldable pub load : Io → Files → ℕ → Heard → EspErr × Heard
load io fs us h = if not h.initialized then (invalid_arg, h) else elim (open_read io fs data_path) [
  | none ↦ (esp_ok, h)
  | some b ↦ (
    esp_ok,
    record h {
      entries = read_entries (length b) heard_max b;
      dirty = false;
      last_persist_time = seconds us;
    },
  )
]

-- After the temporary file is written: check the count, rename, clear the marks.
unfoldable pub publish : Io → ℕ → Heard → Files × ℕ → EspErr × Heard × Files
publish io now h (fs, stored) =
    if not (stored / entry_size == length h.entries)
    then (esp_fail, h, unlink io fs temp_path)
    else elim (rename io fs temp_path data_path) [
      | none ↦ (esp_fail, h, unlink io fs temp_path)
      | some fs' ↦ (esp_ok, record h { dirty = false; last_persist_time = now }, fs')
    ]

-- The temporary file, written and published.
unfoldable pub write_list : Io → Files → ℕ → Heard → EspErr × Heard × Files
unfolding publish
write_list io fs now h = elim (open_write io fs temp_path) [
  | none ↦ (esp_fail, h, fs)
  | some opened ↦ publish io now h (write_all io opened temp_path (encode_all h.entries))
]

unfoldable pub persist : Io → Files → ℕ → Bool → Heard → EspErr × Heard × Files
persist io fs us force h =
    let now = seconds us in
    if not h.initialized
    then (invalid_arg, h, fs)
    else if not force && (ltb (sub32 now h.last_persist_time) 1800 && not h.dirty)
    then (esp_ok, h, fs)
    else write_list io fs now h
