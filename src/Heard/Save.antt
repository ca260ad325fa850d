-- ===== src/Heard/Save.antt =====
-- bbs_heard.c: `bbs_heard_persist` replaces heard.dat as a whole or not at all.
use esp_tnc.Prelude.{
  ℕ, ◌/◌, ◌≤◌, ◌≡◌, ◌≢◌, ◌∙◌, refl, sym, subst, Bool, true, false, not, ◌&&◌, some, List, str_eq,
  ltb, ◌==◌, length, sub32, arith, map, ◌⊎◌, inl, inr, Option-cases, Bool-cases, ==_iff,
}
use esp_tnc.Esp.{EspErr, esp_ok}
use esp_tnc.Files.{Files, Io, open_read, open_write, write_all, rename}
use esp_tnc.Files.Laws.{
  LeftOf, Closes, left_all, write_all-file, write_all_ne, unlink_ne, open_write_ne, rename_target,
}
use esp_tnc.Heard.{Entry, Heard, heard_max, seconds}
use esp_tnc.Heard.Store.{
  data_path, temp_path, encode_all, pre_boot, load, publish, write_list, persist,
}
use esp_tnc.Heard.Disk.{AllStorable, read_entries-encode_all, length-encode_all}

abbrev pub Outcome : Type 0
Outcome = EspErr × Heard × Files

-- heard.dat and the list in memory are as before.
abbrev pub IsKept : Files → Heard → Outcome → Type 0
IsKept fs h (r, h', fs') = (fs' data_path ≡ fs data_path) × (h' ≡ h)

-- heard.dat holds what was written of the list, and the marks are cleared.
abbrev pub IsSaved : Io → ℕ → Heard → Outcome → Type 0
IsSaved io now h (r, h', fs') =
    (r ≡ esp_ok)
    × LeftOf io temp_path (encode_all h.entries) (fs' data_path)
    × (h' ≡ record h { dirty = false; last_persist_time = now })

-- One of the two, and a failure is never a save.
abbrev IsAtomic : Io → ℕ → Files → Heard → Outcome → Type 0
IsAtomic io now fs h o = ((o.0 ≢ esp_ok) × IsKept fs h o) ⊎ IsSaved io now h o

temp-ne-data : str_eq temp_path data_path ≡ false
unfolding str_eq
temp-ne-data = refl

module _ (io : Io) (now : ℕ) (fs₀ : Files) (h : Heard) (v : AllStorable h.entries) where
  publish-IsAtomic :
      (fs : Files) (stored : ℕ)
      → fs data_path ≡ fs₀ data_path
      → (length (encode_all h.entries) ≤ stored
          → LeftOf io temp_path (encode_all h.entries) (fs temp_path))
      → IsAtomic io now fs₀ h (publish io now h (fs, stored))
  unfolding publish
  publish-IsAtomic fs stored kept temp = elim (Bool-cases (stored / 24 == length h.entries)) [
    | inr partial ↦
        rw (partial, publish)
          (inl ((λ e. cc), (unlink_ne temp_path data_path temp-ne-data io fs ∙ kept, refl)))
    | inl whole ↦ elim (Option-cases (rename io fs temp_path data_path)) [
      | inl fails ↦
          rw (whole, publish)
            (rw (fails, publish)
              (inl ((λ e. cc), (unlink_ne temp_path data_path temp-ne-data io fs ∙ kept, refl))))
      | inr (fs', works) ↦
          rw (whole, publish)
            (rw (works, publish)
              (inr (
                refl,
                subst (λ c. LeftOf io temp_path (encode_all h.entries) c)
                    (sym (rename_target temp_path data_path temp-ne-data io fs fs' works))
                    (temp (all_stored whole)),
                refl,
              )))
    ]
  ]
    where
      all_stored : (stored / 24 == length h.entries) ≡ true → length (encode_all h.entries) ≤ stored
      all_stored whole =
          omega (
            arith,
            (==_iff (stored / 24) (length h.entries)).0 whole,
            length-encode_all h.entries v,
          )

  written-IsAtomic :
      (opened : Files)
      → opened data_path ≡ fs₀ data_path
      → IsAtomic io now fs₀ h
          (publish io now h (write_all io opened temp_path (encode_all h.entries)))
  written-IsAtomic opened kept =
      let w = write_all io opened temp_path (encode_all h.entries) in
      publish-IsAtomic w.0 w.1
        (write_all_ne temp_path data_path temp-ne-data io opened (encode_all h.entries) ∙ kept)
        (write_all-file io opened temp_path (encode_all h.entries))

write_list-IsAtomic :
    (io : Io) (fs : Files) (now : ℕ) (h : Heard)
    → AllStorable h.entries
    → IsAtomic io now fs h (write_list io fs now h)
unfolding write_list
write_list-IsAtomic io fs now h v = elim (Option-cases (open_write io fs temp_path)) [
  | inl fails ↦ rw (fails, write_list) (inl ((λ e. cc), (refl, refl)))
  | inr (opened, works) ↦
      rw (works, write_list)
        (written-IsAtomic io now fs h v opened
          (open_write_ne temp_path data_path temp-ne-data io fs opened works))
]

-- Whether `bbs_heard_persist` writes at all.
abbrev pub IsDue : ℕ → Bool → Heard → Type 0
IsDue us force h =
    (h.initialized ≡ true)
    × ((not force && (ltb (sub32 (seconds us) h.last_persist_time) 1800 && not h.dirty)) ≡ false)

module _ (io : Io) (fs : Files) (us : ℕ) (force : Bool) (h : Heard) where
  persist-write_list : IsDue us force h → persist io fs us force h ≡ write_list io fs (seconds us) h
  unfolding persist
  persist-write_list due = ground arith

  -- Whatever the file system refuses, a save that is due either reports an error, with heard.dat
  -- and the list in memory as they were, or reports ESP_OK, with the dirty mark cleared, the time
  -- of the save noted, and in heard.dat the whole list, or as much of it as an fclose of heard.tmp
  -- stored that failed.
  pub persist_atomic :
      AllStorable h.entries
      → IsDue us force h
      → ((persist io fs us force h).0 ≢ esp_ok) × IsKept fs h (persist io fs us force h)
        ⊎ IsSaved io (seconds us) h (persist io fs us force h)
  persist_atomic v due = rw (persist-write_list due) (write_list-IsAtomic io fs (seconds us) h v)

  saved :
      AllStorable h.entries
      → IsDue us force h
      → (persist io fs us force h).0 ≡ esp_ok
      → IsSaved io (seconds us) h (persist io fs us force h)
  saved v due good = elim (persist_atomic v due) [
    | inl (bad, kept) ↦ absurd (bad good)
    | inr done ↦ done
  ]

-- What `bbs_heard_load` makes of a file that a save wrote.
load_saved :
    (io : Io) (fs : Files) (us : ℕ) (h : Heard) (es : List Entry)
    → AllStorable es
    → length es ≤ heard_max
    → h.initialized ≡ true
    → io.reads data_path fs ≡ true
    → fs data_path ≡ some (encode_all es)
    → (load io fs us h).1.entries ≡ map pre_boot es
unfolding load open_read
load_saved io fs us h es v few running reads file =
    rw (running, load)
      (rw (reads, load)
        (rw (file, load)
          (read_entries-encode_all es (length (encode_all es)) heard_max v
            (omega (arith, length-encode_all es v)) few)))

-- A reboot: after a due save that returned ESP_OK, where fclose of heard.tmp works, a load into a
-- fresh list, by then with any time and from the same files, gives the saved entries in their
-- order, each marked as heard before boot.
pub load-persist :
    (io : Io) (fs : Files) (us us' : ℕ) (force : Bool) (h h' : Heard)
    → AllStorable h.entries
    → length h.entries ≤ heard_max
    → IsDue us force h
    → Closes io temp_path
    → (persist io fs us force h).0 ≡ esp_ok
    → h'.initialized ≡ true
    → io.reads data_path (persist io fs us force h).2 ≡ true
    → (load io (persist io fs us force h).2 us' h').1.entries ≡ map pre_boot h.entries
load-persist io fs us us' force h h' v few due closes good running reads =
    load_saved io (persist io fs us force h).2 us' h' h.entries v few running reads
      (left_all io temp_path (encode_all h.entries) _ closes (saved io fs us force h v due good).1)
