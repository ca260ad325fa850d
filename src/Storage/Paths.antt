-- ===== src/Storage/Paths.antt =====
-- bbs_storage.c: the names of the files.
use esp_tnc.Prelude.{
  ℕ, ◌<◌, ◌≡◌, refl, ◌∙◌, sym, ap, false, ◌++◌, Bytes, codes, strlcpy, decimal_padded, scan,
  scan-decimal_padded, length-decimal_padded, drop, take_all, length-append, arith, str_eq,
  str_eq_sound, ◌≢◌, Bool-cases, inl, inr,
}

abbrev pub index_path : Bytes
index_path = codes "/bbsfs/bbs/index.dat"

abbrev message_prefix : Bytes
message_prefix = codes "/bbsfs/bbs/msg_"

-- snprintf into 64 bytes
unfoldable pub make_message_path : ℕ → Bytes
make_message_path id = strlcpy 64 (message_prefix ++ (decimal_padded 4 id ++ codes ".txt"))

-- The path in full: the buffer cuts nothing off.
path-full :
    (id : ℕ) → make_message_path id ≡ message_prefix ++ (decimal_padded 4 id ++ codes ".txt")
unfolding make_message_path
path-full id =
    take_all 63 (message_prefix ++ (decimal_padded 4 id ++ codes ".txt")) (
      omega (arith, length-append (decimal_padded 4 id) (codes ".txt"), length-decimal_padded 4 id))

-- The number that a path names.
path_id : Bytes → ℕ
path_id p = scan 0 (drop 15 p)

path_id-make_message_path : (id : ℕ) → id < 4294967296 → path_id (make_message_path id) ≡ id
unfolding path_id
path_id-make_message_path id h = rw path-full (scan-decimal_padded 4 id b'.' (codes "txt") h refl)

-- No two messages share a file.
pub make_message_path-injective :
    (a b : ℕ) → a < 4294967296 → b < 4294967296 → make_message_path a ≡ make_message_path b → a ≡ b
make_message_path-injective a b ha hb e =
    sym (path_id-make_message_path a ha) ∙ ap path_id e ∙ path_id-make_message_path b hb

pub path-ne :
    (a b : ℕ)
    → a < 4294967296
    → b < 4294967296
    → a ≢ b
    → str_eq (make_message_path a) (make_message_path b) ≡ false
path-ne a b ha hb ne = elim (Bool-cases (str_eq (make_message_path a) (make_message_path b))) [
  | inl same ↦ absurd (ne (make_message_path-injective a b ha hb (str_eq_sound _ _ same)))
  | inr differ ↦ differ
]

-- No message is kept in the index's file.
pub path-ne-index : (id : ℕ) → str_eq (make_message_path id) index_path ≡ false
path-ne-index id = rw path-full (unfold str_eq in refl)

pub index-ne-path : (id : ℕ) → str_eq index_path (make_message_path id) ≡ false
index-ne-path id = rw path-full (unfold str_eq in refl)
