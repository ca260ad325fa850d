-- ===== src/Heard.antt =====
-- main/bbs_heard.c and main/bbs_heard.h: the list of stations heard, most recent first.
pub mod Store
pub mod Frames
pub mod Recency
pub mod Dirty
pub mod Disk
pub mod Save
mod Tests
use esp_tnc.Prelude.{
  ℕ, suc, ◌*◌, ◌/◌, ◌%◌, ◌-◌, Bool, true, false, not, ◌&&◌, ◌||◌, Option, none, some, List, [], ◌∷◌,
  ◌++◌, Bytes, str_eq, is_empty, strlcpy, ltb, ◌==◌, if◌then◌else◌, length, get_elem?, set, take,
  drop, u32_mod, u32_max, min,
}
use mathlib.Core.Option
use esp_tnc.Esp.{EspErr, esp_ok, invalid_arg, no_mem, is_ok}

abbrev pub heard_max : ℕ
heard_max = 20

abbrev pub bucket_seconds : ℕ
bucket_seconds = 900

-- `bbs_heard_entry_t`; the callsign is the C string in its 16 bytes.
pub record Entry : Type 0 where
  pub callsign : Bytes
  pub last_heard_unix : ℕ
  pub bucket_timestamp : ℕ

-- `bbs_heard_t`; `entries` are the first `count` of the array.
pub record Heard : Type 0 where
  pub initialized : Bool
  pub dirty : Bool
  pub last_persist_time : ℕ
  pub bbs_callsign : Bytes
  pub has_mutex : Bool
  pub registered : Bool
  pub entries : List Entry

abbrev pub zeroed : Heard
zeroed = record {
  initialized = false;
  dirty = false;
  last_persist_time = 0;
  bbs_callsign = [];
  has_mutex = false;
  registered = false;
  entries = [];
}

-- (uint32_t)(esp_timer_get_time() / 1000000ULL), from the timer's microseconds
unfoldable pub seconds : ℕ → ℕ
seconds us = us / 1000000 % u32_mod

unfoldable pub compute_bucket : ℕ → ℕ
compute_bucket unix_time = unix_time / bucket_seconds * bucket_seconds

-- The search of `heard_on_frame`: the first entry with this callsign.
index? : Bytes → List Entry → Option ℕ
index? src [] = none
index? src (e ∷ es) = if str_eq e.callsign src then some 0 else Option.map suc (index? src es)

-- An entry found at `i`: stamp it, and move it to the front if it is not there.
touch : ℕ → ℕ → Entry → Heard → Heard
touch now i e h =
    let bucket = compute_bucket now in
    let stamped : Entry = record e { last_heard_unix = now; bucket_timestamp = bucket } in
    if ltb 0 i
    then record h { entries = stamped ∷ (take i h.entries ++ drop (suc i) h.entries); dirty = true }
    else record h {
      entries = set h.entries i stamped;
      dirty =
          if not (e.bucket_timestamp == bucket) || e.bucket_timestamp == u32_max
          then true
          else h.dirty;
    }

-- A new callsign: shift right, which drops the last of a full list, and write the front.
insert_front : ℕ → Bytes → Heard → Heard
insert_front now src h =
    let e : Entry = record {
      callsign = strlcpy 16 src;
      last_heard_unix = now;
      bucket_timestamp = compute_bucket now;
    } in
    record h {
      entries =
          e
          ∷ (if ltb (length h.entries) heard_max
              then h.entries
              else take (heard_max - 1) h.entries);
      dirty = true;
    }

touch_found : ℕ → ℕ → Heard → Heard
unfolding touch
touch_found now i h = elim (get_elem? h.entries i) [ none ↦ h | some e ↦ touch now i e h ]

-- Between the semaphore's take and give.
pub record_source : ℕ → Bytes → Heard → Heard
unfolding index? touch_found insert_front
record_source now src h = elim (index? src h.entries) [
  | none ↦ insert_front now src h
  | some i ↦ touch_found now i h
]

-- The frame is its source address as text, which `ax25_address_to_string` writes.
unfoldable pub on_frame : ℕ → Bytes → Heard → Heard
unfolding record_source
on_frame us src h =
    if not h.initialized || is_empty src
    then h
    else if not (is_empty h.bbs_callsign) && str_eq src h.bbs_callsign
    then h
    else record_source (seconds us) src h

-- `mutex` and `registration` are what the two calls return; the second is `esp_ok` on success.
unfoldable pub init : Bool → EspErr → EspErr × Heard
init mutex registration =
    if not mutex
    then (no_mem, zeroed)
    else if not (is_ok registration)
    then (registration, record zeroed { has_mutex = true })
    else (esp_ok, record zeroed { has_mutex = true; registered = true; initialized = true })

-- `none` is a NULL callsign.
unfoldable pub set_filter_callsign : Option Bytes → Heard → Heard
set_filter_callsign none h = record h { bbs_callsign = [] }
set_filter_callsign (some c) h =
    if is_empty c then record h { bbs_callsign = [] } else record h { bbs_callsign = strlcpy 16 c }

pub deinit : Heard → Heard
deinit h =
    if not h.initialized
    then h
    else record h { registered = false; initialized = false; has_mutex = false }

-- What is copied to `out`; the count returned is its length.
unfoldable pub snapshot : Heard → ℕ → List Entry
snapshot h max_out =
    take (if ltb (length h.entries) max_out then length h.entries else max_out) h.entries
