-- ===== src/Heard/Tests.antt =====
-- Runs of the heard list, and its theorems at concrete inputs.
use esp_tnc.Prelude.{
  ◌≡◌, ◌≢◌, refl, true, false, none, some, ◌++◌, [], ◌∷◌, codes, str_eq, arith, ◌⊎◌, map, pad, le32,
}
use esp_tnc.Esp.{esp_ok}
use esp_tnc.Files.{Files, Io, put_file, open_write, write_all, rename}
use esp_tnc.Heard.{Entry, Heard, zeroed, seconds, compute_bucket, index?, on_frame}
use esp_tnc.Heard.Frames.{IsValid, most_recent}
use esp_tnc.Heard.Recency.{IsHeard, on_frame_refines, on_frame-IsValid}
use esp_tnc.Heard.Dirty.{shape, on_frame_clean}
use esp_tnc.Heard.Store.{data_path, encode_all, encode, write_list, persist, load, pre_boot}
use esp_tnc.Heard.Disk.{AllStorable}
use esp_tnc.Heard.Save.{IsKept, IsSaved, persist_atomic, load-persist}

abbrev old_entry : Entry
old_entry = record { callsign = codes "N0TST-8"; last_heard_unix = 5; bucket_timestamp = 0 }

abbrev new_entry : Entry
new_entry = record { callsign = codes "N7GET"; last_heard_unix = 1000; bucket_timestamp = 900 }

abbrev two_heard : Heard
two_heard = record zeroed {
  initialized = true;
  bbs_callsign = codes "N7GET-2";
  has_mutex = true;
  registered = true;
  entries = new_entry ∷ old_entry ∷ [];
}

two_heard-IsValid : IsValid two_heard
unfolding str_eq
two_heard-IsValid = record {
  bounded = omega arith;
  distinct = ((refl, tt), (tt, tt));
  fits = (refl, omega arith, (refl, omega arith, tt));
}

old-IsHeard : IsHeard (codes "N0TST-8") two_heard
unfolding str_eq
old-IsHeard = record { running = refl; named = refl; short = omega arith; others = refl }

-- The station heard again moves to the front.
moves_up :
    map (λ (e : Entry). e.callsign) (on_frame 2000000000 (codes "N0TST-8") two_heard).entries
    ≡ codes "N0TST-8" ∷ codes "N7GET" ∷ []
unfolding on_frame index? str_eq seconds compute_bucket
moves_up = refl

-- The program's own callsign is not heard.
own_callsign : on_frame 2000000000 (codes "N7GET-2") two_heard ≡ two_heard
unfolding on_frame str_eq
own_callsign = refl

on_frame_refines_example :
    (on_frame 2000000000 (codes "N0TST-8") two_heard).entries
    ≡ most_recent (seconds 2000000000) (codes "N0TST-8") two_heard.entries
on_frame_refines_example =
    on_frame_refines 2000000000 (codes "N0TST-8") two_heard two_heard-IsValid old-IsHeard

on_frame-IsValid_example : IsValid (on_frame 2000000000 (codes "K7ABC") two_heard)
on_frame-IsValid_example =
    on_frame-IsValid 2000000000 (codes "K7ABC") two_heard two_heard-IsValid (omega arith)

-- Heard again within the quarter of an hour: still clean.
stays_clean : (on_frame 1001000000 (codes "N7GET") two_heard).dirty ≡ false
unfolding on_frame index? str_eq seconds compute_bucket
stays_clean = refl

on_frame_clean_example :
    (two_heard.dirty ≡ false)
    × (map shape (on_frame 1001000000 (codes "N7GET") two_heard).entries
        ≡ map shape two_heard.entries)
on_frame_clean_example = on_frame_clean 1001000000 (codes "N7GET") two_heard stays_clean

-- A file system where every call works.
abbrev works : Io
works = record {
  reads = λ p fs. true;
  writes = λ p fs. true;
  room = λ p fs. 100000;
  closes = λ p fs. none;
  unlinks = λ p fs. true;
  renames = λ p q fs. true;
}

abbrev no_files : Files
no_files p = none

two_heard-AllStorable : AllStorable two_heard.entries
two_heard-AllStorable = (
  record { named = refl; short = omega arith; text = omega arith },
  (record { named = refl; short = omega arith; text = omega arith }, tt),
)

persist_atomic_example :
    ((persist works no_files 2000000000 true two_heard).0 ≢ esp_ok)
      × IsKept no_files two_heard (persist works no_files 2000000000 true two_heard)
    ⊎ IsSaved works
        (seconds 2000000000)
        two_heard
        (persist works no_files 2000000000 true two_heard)
persist_atomic_example =
    persist_atomic works no_files 2000000000 true two_heard two_heard-AllStorable (refl, refl)

saves : (persist works no_files 2000000000 true two_heard).0 ≡ esp_ok
unfolding persist write_list open_write write_all rename encode_all encode pad le32
saves = refl

-- An fclose that stores 10 of the 48 bytes: the save reports ESP_OK all the same.
abbrev short_close : Io
short_close = record works { closes = λ p fs. some 10 }

saves_short :
    ((persist short_close no_files 2000000000 true two_heard).0 ≡ esp_ok)
    × ((persist short_close no_files 2000000000 true two_heard).2 data_path
        ≡ some (codes "N7GET" ++ (0 ∷ 0 ∷ 0 ∷ 0 ∷ 0 ∷ [])))
unfolding persist write_list open_write write_all rename encode_all encode pad le32 str_eq put_file
saves_short = (refl, refl)

abbrev rebooted : Heard
rebooted = record zeroed { initialized = true; has_mutex = true; registered = true }

load-persist_example :
    (load works (persist works no_files 2000000000 true two_heard).2 7 rebooted).1.entries
    ≡ map pre_boot two_heard.entries
load-persist_example =
    load-persist works no_files 2000000000 7 true two_heard rebooted two_heard-AllStorable
      (omega arith) (refl, refl) (λ fs. refl) saves refl refl
