-- ===== src/Storage/Reboot.antt =====
-- bbs_storage.c: a reboot. What `index_load` makes of the index that was saved last.
use esp_tnc.Prelude.{
  ℕ, ◌*◌, ◌/◌, ◌≤◌, ◌≡◌, refl, true, some, List, [], ◌∷◌, Bytes, ◌==◌, ==_iff, length, u32_max,
  arith, inl, inr, Bool-cases, Option-cases,
}
use esp_tnc.Esp.{esp_ok}
use esp_tnc.Files.{Files, Io, open_read, open_write}
use esp_tnc.Files.Laws.{LeftOf, Closes, left_all, write_all-file}
use esp_tnc.Storage.Paths.{index_path}
use esp_tnc.Storage.Index.{
  Message, Storage, encode_all, check_saved, index_save, next_after, index_load,
}
use esp_tnc.Storage.Records.{AllBelow}
use esp_tnc.Storage.Valid.{IsValid}
use esp_tnc.Storage.Reload.{AllStorable, next_over, load_records-encode_all, length-encode_all}

check_saved-file :
    (io : Io) (count n : ℕ) (fs : Files) (d : Bytes)
    → (length d ≤ n → LeftOf io index_path d (fs index_path))
    → length d ≡ 80 * count
    → (check_saved count (fs, n)).0 ≡ esp_ok
    → LeftOf io index_path d ((check_saved count (fs, n)).1 index_path)
unfolding check_saved
check_saved-file io count n fs d file long = elim (Bool-cases (n / 80 == count)) [
  | inl whole ↦
      rw (whole, check_saved) (λ good. file (omega (arith, (==_iff (n / 80) count).0 whole)))
  | inr part ↦ rw (part, check_saved) (λ good. cc)
]

-- A save that returns ESP_OK has written the whole index, as far as fclose stored it.
pub index_save-file :
    (io : Io) (fs : Files) (ms : List Message)
    → AllStorable ms
    → (index_save io fs ms).0 ≡ esp_ok
    → LeftOf io index_path (encode_all ms) ((index_save io fs ms).1 index_path)
unfolding index_save
index_save-file io fs ms v = elim (Option-cases (open_write io fs index_path)) [
  | inl fails ↦ rw (fails, index_save) (λ good. cc)
  | inr (opened, works) ↦
      rw (works, index_save)
        (check_saved-file io (length ms) _ _ (encode_all ms)
          (write_all-file io opened index_path (encode_all ms)) (length-encode_all ms v))
]

-- The id that a load goes on from is above the ids loaded, and no higher than any bound of them.
next_over-le :
    (next k : ℕ) (ms : List Message)
    → next ≤ k
    → k ≤ u32_max
    → AllBelow k ms
    → next_over next ms ≤ k
unfolding next_over
next_over-le next k [] le max h = le
next_over-le next k (m ∷ ms) le max h =
    next_over-le (next_after next m.id) k ms (ground arith) max h.1

le-next_over :
    (next k : ℕ) (ms : List Message) → k ≤ u32_max → AllBelow k ms → next ≤ next_over next ms
unfolding next_over
le-next_over next k [] max h = omega arith
le-next_over next k (m ∷ ms) max h =
    ground (arith, le-next_over (next_after next m.id) k ms max h.1)

AllBelow-next_over :
    (next k : ℕ) (ms : List Message) → k ≤ u32_max → AllBelow k ms → AllBelow (next_over next ms) ms
unfolding next_over
AllBelow-next_over next k [] max h = tt
AllBelow-next_over next k (m ∷ ms) max h = (
  ground (arith, le-next_over (next_after next m.id) k ms max h.1),
  AllBelow-next_over (next_after next m.id) k ms max h.1,
)

-- What `index_load` leaves in the fresh store `st'` from the records of `st`.
abbrev pub reloaded : Storage → Storage → Storage
reloaded st st' = record st' { records = st.records; next_id = next_over 1 st.records }

load_saved :
    (io : Io) (fs : Files) (st st' : Storage)
    → AllStorable st.records
    → length st.records ≤ st'.max_messages
    → io.reads index_path fs ≡ true
    → fs index_path ≡ some (encode_all st.records)
    → index_load io fs st' ≡ (esp_ok, reloaded st st', fs)
unfolding index_load open_read
load_saved io fs st st' v few reads file =
    rw (reads, index_load)
      (rw (file, index_load)
        (rw
          (load_records-encode_all st.records (length (encode_all st.records)) st'.max_messages 1 v
            (omega (arith, length-encode_all st.records v)) few)
          refl))

-- A reboot after a save that returned ESP_OK, where fclose of the index works: loading the index
-- into a fresh store of the same size gives every record back in its place, and a valid store;
-- `next_id` is then above every id in use, and may be below what it was.
pub index_load-index_save :
    (io io' : Io) (fs : Files) (st st' : Storage)
    → IsValid st
    → st.next_id ≤ u32_max
    → AllStorable st.records
    → st'.max_messages ≡ st.max_messages
    → Closes io index_path
    → (index_save io fs st.records).0 ≡ esp_ok
    → io'.reads index_path (index_save io fs st.records).1 ≡ true
    → (index_load io' (index_save io fs st.records).1 st'
        ≡ (esp_ok, reloaded st st', (index_save io fs st.records).1))
      × IsValid (reloaded st st')
      × ((reloaded st st').next_id ≤ st.next_id)
index_load-index_save io io' fs st st' v word storable same closes good reads = (
  load_saved io' (index_save io fs st.records).1 st st' storable (omega (arith, v.capped)) reads (
      left_all io index_path (encode_all st.records) _ closes
        (index_save-file io fs st.records storable good)),
  record {
    capped = omega (arith, v.capped);
    positive = omega (arith, v.positive);
    limited = omega (arith, v.limited);
    nonzero = v.nonzero;
    below = AllBelow-next_over 1 st.next_id st.records word v.below;
    distinct = v.distinct;
    started = le-next_over 1 st.next_id st.records word v.below;
  },
  next_over-le 1 st.next_id st.records v.started word v.below,
)
