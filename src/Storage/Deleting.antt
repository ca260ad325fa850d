-- ===== src/Storage/Deleting.antt =====
-- bbs_storage.c: `bbs_storage_delete_message`, and the abstract view of the store.
use esp_tnc.Prelude.{
  ℕ, ◌<◌, ◌≡◌, refl, ◌∙◌, none, List, ◌==◌, if◌then◌else◌, arith, inl, inr, Bool-cases,
  Option-cases, [], ◌∷◌, ==_iff, u32_mod, ◌≢◌,
}
use esp_tnc.Files.{Files, Io, unlink}
use esp_tnc.Files.Laws.{unlink_ne}
use esp_tnc.Storage.{find_record_idx, find, delete_at, delete_message}
use esp_tnc.Storage.Paths.{make_message_path, path-ne}
use esp_tnc.Storage.Index.{Message, Storage}
use esp_tnc.Storage.Records.{first, find-first, first-remove}
use esp_tnc.Storage.Valid.{IsValid, remove, remove-IsValid}
use esp_tnc.Storage.Bodies.{index_save-body}

-- Deleting keeps the store valid, whatever the file system does.
pub delete_message-IsValid :
    (io : Io) (fs : Files) (st : Storage) (id : ℕ)
    → IsValid st
    → IsValid (delete_message io fs st id).1
unfolding delete_message delete_at
delete_message-IsValid io fs st id v = elim (Option-cases (find_record_idx id st.records)) [
  | inl missing ↦ rw (missing, delete_message) v
  | inr (i, at) ↦ rw (at, delete_message) (remove-IsValid i st v)
]

first_missing : (id : ℕ) (ms : List Message) → find_record_idx id ms ≡ none → first id ms ≡ none
unfolding first find_record_idx
first_missing id [] h = refl
first_missing id (m ∷ ms) h = ground (arith, first_missing id ms)

-- After a delete, whether or not the index could be saved, the id is no longer found, and every
-- other id finds what it found before.
pub find-delete_message :
    (io : Io) (fs : Files) (st : Storage) (id j : ℕ)
    → IsValid st
    → find (delete_message io fs st id).1 j ≡ (if id == j then none else find st j)
unfolding delete_message delete_at
find-delete_message io fs st id j v = elim (Option-cases (find_record_idx id st.records)) [
  | inl missing ↦
      rw (missing, delete_message)
        (elim (Bool-cases (id == j)) [
          | inl same ↦
              (let e : id ≡ j = (==_iff id j).0 same in
                rw (same, find-first) (first_missing j st.records (rw e at missing)))
          | inr other ↦ rw other refl
        ])
  | inr (i, at) ↦
      rw (at, delete_message)
        (rw (find-first (record st { records = remove i st.records }) j, find-first st j)
          (first-remove j id i st.records v.distinct at))
]

-- A delete removes no other message's body.
pub delete_message-body :
    (io : Io) (fs : Files) (st : Storage) (id j : ℕ)
    → id < u32_mod
    → j < u32_mod
    → id ≢ j
    → (delete_message io fs st id).2 (make_message_path j) ≡ fs (make_message_path j)
unfolding delete_message delete_at
delete_message-body io fs st id j word word' ne =
    elim (Option-cases (find_record_idx id st.records)) [
      | inl missing ↦ rw (missing, delete_message) refl
      | inr (i, at) ↦
          rw (at, delete_message)
            (index_save-body io (unlink io fs (make_message_path id)) (remove i st.records) j
              ∙ unlink_ne (make_message_path id) (make_message_path j) (path-ne id j word word' ne)
                  io fs)
    ]
