-- ===== src/Storage/Tests.antt =====
-- Runs of the message store, and its theorems at concrete inputs.
use esp_tnc.Prelude.{
  ℕ, ◌≤◌, ◌≡◌, refl, true, none, some, [], ◌∷◌, codes, arith, ◌==◌, if◌then◌else◌, pad, le32,
  digits, decimal_padded,
}
use esp_tnc.Esp.{esp_ok}
use esp_tnc.Files.{Files, Io, open_write, write_all}
use esp_tnc.Storage.{
  find_record_idx, find, oldest, Post, message_of, store_message, read_message, delete_message,
}
use esp_tnc.Storage.Paths.{make_message_path}
use esp_tnc.Storage.Index.{Message, Storage, index_save, index_load, encode, encode_all}
use esp_tnc.Storage.Valid.{IsValid}
use esp_tnc.Storage.Storing.{store_message-IsValid}
use esp_tnc.Storage.Bodies.{read-store_message}
use esp_tnc.Storage.Deleting.{find-delete_message}
use esp_tnc.Storage.Reload.{AllStorable}
use esp_tnc.Storage.Reboot.{reloaded, index_load-index_save}

-- A file system where every call works.
abbrev works : Io
works = record {
  reads = λ p fs. true;
  writes = λ p fs. true;
  room = λ p fs. 100000;
  closes = λ p fs. none;
  unlinks = λ p fs. true;
  renames = λ p q fs. true;
}

abbrev no_files : Files
no_files p = none

abbrev message : ℕ → Message
message id = record {
  id = id;
  from = codes "N7GET";
  to = codes "ALL";
  subject = codes "Hi";
  size = 3;
  timestamp = 10;
  flags = 2;
}

-- A full store of two messages, the older one last.
abbrev full_store : Storage
full_store = record {
  mounted = true;
  max_messages = 2;
  next_id = 9;
  records = message 7 ∷ message 4 ∷ [];
  partition_label = codes "bbs_data";
}

abbrev post : Post
post = record {
  from = codes "K7ABC";
  to = codes "N7GET";
  subject = none;
  body = codes "Hello";
  flags = 1;
}

full_store-IsValid : IsValid full_store
full_store-IsValid = omega arith

stores : (store_message works no_files 5000 post full_store).0 ≡ esp_ok
unfolding store_message index_save open_write write_all encode_all encode pad le32 message_of
stores = refl

-- The oldest message gives way.
ids_after :
    (find (store_message works no_files 5000 post full_store).2 4 ≡ none)
    × (find (store_message works no_files 5000 post full_store).2 7 ≡ some (message 7))
unfolding store_message index_save open_write find find_record_idx message_of oldest write_all
ids_after = (refl, refl)

store_message-IsValid_example : IsValid (store_message works no_files 5000 post full_store).2
store_message-IsValid_example =
    store_message-IsValid 5000 post full_store full_store-IsValid (omega arith) works no_files

read-store_message_example :
    read_message works
      (store_message works no_files 5000 post full_store).3
      (store_message works no_files 5000 post full_store).2
      9
      4
    ≡ (esp_ok, codes "Hel")
read-store_message_example =
    read-store_message works works no_files 5000 post full_store 4 full_store-IsValid (omega arith)
      refl (λ fs. refl) stores refl (omega arith)

find-delete_message_example :
    find (delete_message works no_files full_store 7).1 4
    ≡ (if 7 == 4 then none else find full_store 4)
find-delete_message_example = find-delete_message works no_files full_store 7 4 full_store-IsValid

full_store-AllStorable : AllStorable full_store.records
full_store-AllStorable = omega arith

saves : (index_save works no_files full_store.records).0 ≡ esp_ok
unfolding index_save open_write write_all encode_all encode pad le32
saves = refl

index_load-index_save_example :
    (index_load works
        (index_save works no_files full_store.records).1
        (record full_store { records = [] })
      ≡ (
        esp_ok,
        reloaded full_store (record full_store { records = [] }),
        (index_save works no_files full_store.records).1,
      ))
    × IsValid (reloaded full_store (record full_store { records = [] }))
    × ((reloaded full_store (record full_store { records = [] })).next_id ≤ 9)
index_load-index_save_example =
    index_load-index_save works works no_files full_store (record full_store { records = [] })
      full_store-IsValid (omega arith) full_store-AllStorable refl (λ fs. refl) saves refl

path_of_message : make_message_path 12 ≡ codes "/bbsfs/bbs/msg_0012.txt"
unfolding make_message_path decimal_padded digits
path_of_message = refl
