-- ===== src/Storage/Posting.antt =====
-- bbs_storage.c: what storing and deleting a message does to the store.
use esp_tnc.Prelude.{
  ℕ, ◌≤◌, ◌<◌, ◌≡◌, ◌∙◌, sym, ap, Bool, ◌&&◌, none, some, [], ◌∷◌, ◌++◌, leb, ◌==◌, if◌then◌else◌,
  length, set, arith, inl, inr, Bool-cases, length-append, length-set,
}
use esp_tnc.Files.{Files, Io}
use esp_tnc.Storage.{find, oldest, add_record}
use esp_tnc.Storage.Index.{Message, Storage}
use esp_tnc.Storage.Records.{
  first, first-at, AllFrom-first, find-first, first-append, first-set, oldest_lem, IsNew, AllBelow,
}
use esp_tnc.Storage.Valid.{
  IsValid, IsNew-of_AllBelow, AllFrom-append, AllBelow-append, AreDistinct-append, AllFrom-set,
  AllBelow-set, AreDistinct-set,
}

-- The store with the record in it, the oldest replaced if it is full.
abbrev pub added : Message → Storage → Storage
added m st =
    if leb st.max_messages (length st.records)
    then record st { records = set st.records (oldest st.records).0 m }
    else record st { records = st.records ++ (m ∷ []) }

pub added-add_record :
    (io : Io) (fs : Files) (m : Message) (st : Storage) → (add_record io fs m st).2 ≡ added m st
unfolding add_record
added-add_record io fs m st = elim (Bool-cases (leb st.max_messages (length st.records))) [
  | inl full ↦ rw full
  | inr room ↦ rw room
]

-- A record that may be added: its id is above all others and below the next.
pub record IsNext (m : Message) (st : Storage) : Type 0 where
  pub above : AllBelow m.id st.records
  pub nonzero : 1 ≤ m.id
  pub below : m.id < st.next_id

pub added-IsValid : (m : Message) (st : Storage) → IsValid st → IsNext m st → IsValid (added m st)
added-IsValid m st v n = elim (Bool-cases (leb st.max_messages (length st.records))) [
  | inl full ↦ rw full (record {
    capped = omega (arith, v.capped, length-set st.records (oldest st.records).0 m);
    positive = v.positive;
    limited = v.limited;
    nonzero = AllFrom-set m 1 (oldest st.records).0 st.records n.nonzero v.nonzero;
    below = AllBelow-set m st.next_id (oldest st.records).0 st.records n.below v.below;
    distinct = AreDistinct-set m (oldest st.records).0 st.records new v.distinct;
    started = v.started;
  })
  | inr room ↦ rw room (record {
    capped = ground (arith, v.capped, length-append st.records (m ∷ []));
    positive = v.positive;
    limited = v.limited;
    nonzero = AllFrom-append m 1 st.records n.nonzero v.nonzero;
    below = AllBelow-append m st.next_id st.records n.below v.below;
    distinct = AreDistinct-append m st.records new v.distinct;
    started = v.started;
  })
]
  where
    new : IsNew m.id st.records
    new = IsNew-of_AllBelow m.id m.id st.records n.above (omega arith)

-- The message that a store has to give up: the oldest of a full store.
abbrev pub evicts : Storage → ℕ → Bool
evicts st j = leb st.max_messages (length st.records) && (oldest st.records).1 == j

-- The message of this id is there, and no other has a lesser id.
abbrev pub IsOldest : ℕ → Storage → Type 0
IsOldest old st =
    ((m : Message) × (find st old ≡ some m))
    × ((j : ℕ) (m : Message) → find st j ≡ some m → old ≤ j)

pub oldest-IsOldest : (st : Storage) → 0 < length st.records → IsOldest (oldest st.records).1 st
oldest-IsOldest st some_kept =
    let (m, at, same, least) = oldest_lem st.records some_kept in
    let (x, found) = first-at (oldest st.records).0 m st.records at in
    (
      (x, find-first st (oldest st.records).1 ∙ ap (λ id. first id st.records) (sym same) ∙ found),
      λ j y there.
          AllFrom-first (oldest st.records).1 j y st.records least (sym (find-first st j) ∙ there),
    )

pub find-added :
    (m : Message) (st : Storage) (j : ℕ)
    → IsValid st
    → IsNext m st
    → find (added m st) j ≡ (if m.id == j then some m else if evicts st j then none else find st j)
find-added m st j v n = elim (Bool-cases (leb st.max_messages (length st.records))) [
  | inl full ↦
      (let (old, at, same, least) = oldest_lem st.records (ground (arith, v.positive)) in
        rw (full, find-first, find-first)
          (rw (first-set j (oldest st.records).0 m old st.records v.distinct new at, same)))
  | inr room ↦ rw (room, find-first, find-first) (first-append j m st.records new)
]
  where
    new : IsNew m.id st.records
    new = IsNew-of_AllBelow m.id m.id st.records n.above (omega arith)
