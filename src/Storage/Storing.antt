-- ===== src/Storage/Storing.antt =====
-- bbs_storage.c: `bbs_storage_store_message` and `bbs_storage_delete_message` as a whole.
use esp_tnc.Prelude.{
  ℕ, ◌≤◌, ◌<◌, ◌≡◌, ◌≢◌, refl, ◌∙◌, Bool, true, false, not, ◌&&◌, none, some, Bytes, leb, ◌==◌,
  ==_iff, if◌then◌else◌, length, arith, inl, inr, ◌⊎◌, Bool-cases, Option-cases, add32, u32_max,
}
use esp_tnc.Esp.{esp_ok, is_ok}
use esp_tnc.Files.{Files, Io, open_write}
use esp_tnc.Files.Laws.{LeftOf, write_all-file}
use esp_tnc.Storage.{
  find, oldest, Post, Stored, message_of, save_index, add_record, check_body, write_message,
  store_message,
}
use esp_tnc.Storage.Paths.{make_message_path}
use esp_tnc.Storage.Index.{Message, Storage}
use esp_tnc.Storage.Records.{find-first}
use esp_tnc.Storage.Valid.{IsValid, AllBelow-mono}
use esp_tnc.Storage.Posting.{
  added-add_record, IsNext, added-IsValid, evicts, find-added, IsOldest, oldest-IsOldest,
}

-- The body did not reach the flash: an error, no id, and the index as it was.
abbrev pub IsRefused : Storage → Stored → Type 0
IsRefused st (err, id, st', fs) = (err ≢ esp_ok) × (id ≡ none) × (st' ≡ st)

-- The body is in its file, as far as fclose stored it, and the record is added.
abbrev pub HasBody : Io → Message → Bytes → Storage → Stored → Type 0
HasBody io m body st o =
    (fs : Files) × LeftOf io (make_message_path m.id) body (fs (make_message_path m.id))
    × (o ≡ add_record io fs m st)

check_body-cases :
    (io : Io) (m : Message) (body : Bytes) (st : Storage) (fs : Files) (n : ℕ)
    → (length body ≤ n → LeftOf io (make_message_path m.id) body (fs (make_message_path m.id)))
    → IsRefused st (check_body io m (length body) st (fs, n))
      ⊎ HasBody io m body st (check_body io m (length body) st (fs, n))
unfolding check_body
check_body-cases io m body st fs n file = elim (Bool-cases (n == length body)) [
  | inl whole ↦
      rw (whole, check_body)
        (inr (fs, file (omega (arith, (==_iff n (length body)).0 whole)), refl))
  | inr partial ↦ rw (partial, check_body) (inl ((λ e. cc), refl, refl))
]

pub write_message-cases :
    (io : Io) (fs : Files) (m : Message) (body : Bytes) (st : Storage)
    → IsRefused st (write_message io fs m body st)
      ⊎ HasBody io m body st (write_message io fs m body st)
unfolding write_message
write_message-cases io fs m body st =
    elim (Option-cases (open_write io fs (make_message_path m.id))) [
      | inl fails ↦ rw (fails, write_message) (inl ((λ e. cc), refl, refl))
      | inr (opened, works) ↦
          rw (works, write_message)
            (check_body-cases io m body st _ _
              (write_all-file io opened (make_message_path m.id) body))
    ]

-- The id is given out exactly when the index was saved.
save_index-id :
    (io : Io) (fs : Files) (id : ℕ) (st : Storage)
    → (save_index io fs id st).1 ≡ (if is_ok (save_index io fs id st).0 then some id else none)
unfolding save_index
save_index-id io fs id st = refl

add_record-id :
    (io : Io) (fs : Files) (m : Message) (st : Storage)
    → (add_record io fs m st).1 ≡ (if is_ok (add_record io fs m st).0 then some m.id else none)
unfolding add_record
add_record-id io fs m st = elim (Bool-cases (leb st.max_messages (length st.records))) [
  | inl full ↦ rw full refl
  | inr room ↦ rw room refl
]

-- The store after the id has been taken.
abbrev pub numbered : Storage → Storage
numbered st = record st { next_id = add32 st.next_id 1 }

-- A guard that leaves the store as it is.
IsValid-if :
    (b : Bool) (bad good : Stored)
    → IsValid bad.2
    → IsValid good.2
    → IsValid (if not b then bad else good).2
IsValid-if true bad good vb vg = vg
IsValid-if false bad good vb vg = vb

pub store_message-write_message :
    (io : Io) (fs : Files) (ms : ℕ) (p : Post) (st : Storage)
    → st.mounted ≡ true
    → store_message io fs ms p st
      ≡ write_message io fs (message_of st.next_id ms p) p.body (numbered st)
unfolding store_message
store_message-write_message io fs ms p st on = ground arith

find-numbered : (st : Storage) (j : ℕ) → find (numbered st) j ≡ find st j
find-numbered st j = rw (find-first (numbered st) j, find-first st j)

module _ (ms : ℕ) (p : Post) (st : Storage) (v : IsValid st) (fits : st.next_id < u32_max) where
  numbered-IsValid : IsValid (numbered st)
  numbered-IsValid = record {
    capped = v.capped;
    positive = v.positive;
    limited = v.limited;
    nonzero = v.nonzero;
    below = AllBelow-mono st.next_id (add32 st.next_id 1) st.records (omega arith) v.below;
    distinct = v.distinct;
    started = omega arith;
  }

  message_of-IsNext : IsNext (message_of st.next_id ms p) (numbered st)
  unfolding message_of
  message_of-IsNext = record { above = v.below; nonzero = v.started; below = omega arith }

  abbrev stored : Message
  stored = message_of st.next_id ms p

  write_message-IsValid :
      (io : Io) (fs : Files) → IsValid (write_message io fs stored p.body (numbered st)).2
  write_message-IsValid io fs = elim (write_message-cases io fs stored p.body (numbered st)) [
    | inl refused ↦ rw (refused.2) numbered-IsValid
    | inr (fs', file, same) ↦
        rw (same, added-add_record)
          (added-IsValid stored (numbered st) numbered-IsValid message_of-IsNext)
  ]

  -- Every outcome of storing a message, errors included, keeps the store valid: at most
  -- `max_messages` records, with distinct ids from 1 up, all below `next_id`, as long as the 32-bit
  -- ids have not run out.
  pub store_message-IsValid : (io : Io) (fs : Files) → IsValid (store_message io fs ms p st).2
  unfolding store_message
  store_message-IsValid io fs = IsValid-if st.mounted _ _ v (write_message-IsValid io fs)

  write_message-id :
      (io : Io) (fs : Files)
      → (write_message io fs stored p.body (numbered st)).0 ≡ esp_ok
      → (write_message io fs stored p.body (numbered st)).1 ≡ some st.next_id
  write_message-id io fs = elim (write_message-cases io fs stored p.body (numbered st)) [
    | inl refused ↦ (λ good. absurd (refused.0 good))
    | inr (fs', file, same) ↦
        rw same (λ good. add_record-id io fs' stored (numbered st) ∙ (unfold message_of in rw good))
  ]

  -- What the index holds after a message was stored.
  abbrev HoldsPost : Stored → Type 0
  HoldsPost o =
      (j : ℕ)
      → find o.2 j
        ≡ (if st.next_id == j then some stored else if evicts st j then none else find st j)

  write_message-HoldsPost :
      (io : Io) (fs : Files)
      → (write_message io fs stored p.body (numbered st)).0 ≡ esp_ok
      → HoldsPost (write_message io fs stored p.body (numbered st))
  write_message-HoldsPost io fs good j =
      elim (write_message-cases io fs stored p.body (numbered st)) [
        | inl refused ↦ absurd (refused.0 good)
        | inr (fs', file, same) ↦
            rw (same, added-add_record)
              (find-added stored (numbered st) j numbered-IsValid message_of-IsNext
                ∙ (unfold message_of in rw (find-numbered st j)))
      ]

  pub store_message_ok :
      (io : Io) (fs : Files)
      → st.mounted ≡ true
      → (store_message io fs ms p st).0 ≡ esp_ok
      → ((store_message io fs ms p st).1 ≡ some st.next_id)
        × ((old : ℕ) × (st.max_messages ≤ length st.records → IsOldest old st)
            × ((j : ℕ)
                → find (store_message io fs ms p st).2 j ≡ (
                    if st.next_id == j
                    then some (message_of st.next_id ms p)
                    else if leb st.max_messages (length st.records) && old == j
                    then none
                    else find st j)))
  store_message_ok io fs on = rw (store_message-write_message io fs ms p st on) (λ good. (
    write_message-id io fs good,
    (
      (oldest st.records).1,
      (λ full. oldest-IsOldest st (omega (arith, v.positive))),
      write_message-HoldsPost io fs good,
    ),
  ))
