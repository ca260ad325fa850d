-- ===== src/Storage/Reload.antt =====
-- bbs_storage.c: index.dat, written by `index_save` and read by `index_load`.
use esp_tnc.Prelude.{
  ℕ, zero, suc, ◌*◌, ◌%◌, ◌≤◌, ◌<◌, ◌≡◌, refl, ap, false, List, [], ◌∷◌, ◌++◌, append_assoc, Bytes,
  NoNul, ltb, ◌==◌, length, length-append, take-append, drop-append, pad, length-pad, c_str-pad,
  le32, of_le32-append, drop-le32, length-le32, u32_mod, arith,
}
use esp_tnc.Storage.Index.{Message, encode, decode, encode_all, next_after, load_records}

-- A record that the file format keeps.
pub record IsStorable (m : Message) : Type 0 where
  pub id_word : m.id < u32_mod
  pub id_pos : 0 < m.id
  pub from_fits : length m.from ≤ 6
  pub from_text : NoNul m.from
  pub to_fits : length m.to ≤ 6
  pub to_text : NoNul m.to
  pub subject_fits : length m.subject ≤ 48
  pub subject_text : NoNul m.subject
  pub size_word : m.size < u32_mod
  pub time_word : m.timestamp < u32_mod
  pub flags_byte : m.flags < 256

abbrev pub AllStorable : List Message → Type 0
AllStorable [] = Unit
AllStorable (m ∷ ms) = IsStorable m × AllStorable ms

-- The bytes of a record, bracketed to the right before what follows it.
abbrev spread : Message → Bytes → Bytes
spread m rest =
    le32 m.id
    ++ (pad 7 m.from
        ++ (pad 7 m.to
            ++ (pad 49 m.subject
                ++ (0
                    ∷ (le32 m.size ++ (le32 m.timestamp ++ (m.flags % 256 ∷ 0 ∷ 0 ∷ 0 ∷ rest)))))))

encode-spread : (m : Message) (rest : Bytes) → encode m ++ rest ≡ spread m rest
unfolding encode
encode-spread m rest = simp append_assoc

module _ (m : Message) (rest : Bytes) (v : IsStorable m) where
  from_long : length (pad 7 m.from) ≡ 7
  from_long = length-pad 7 m.from (omega (arith, v.from_fits))

  to_long : length (pad 7 m.to) ≡ 7
  to_long = length-pad 7 m.to (omega (arith, v.to_fits))

  subject_long : length (pad 49 m.subject) ≡ 49
  subject_long = length-pad 49 m.subject (omega (arith, v.subject_fits))

  decode-spread : decode (spread m rest) ≡ m
  unfolding decode
  decode-spread =
      simp
        (
          drop-le32,
          drop-append 7 (pad 7 m.from) _ from_long,
          take-append 7 (pad 7 m.from) _ from_long,
          drop-append 7 (pad 7 m.to) _ to_long,
          take-append 7 (pad 7 m.to) _ to_long,
          drop-append 49 (pad 49 m.subject) _ subject_long,
          take-append 49 (pad 49 m.subject) _ subject_long,
          c_str-pad 7 m.from (omega (arith, v.from_fits)) v.from_text,
          c_str-pad 7 m.to (omega (arith, v.to_fits)) v.to_text,
          c_str-pad 49 m.subject (omega (arith, v.subject_fits)) v.subject_text,
          of_le32-append m.id _ v.id_word,
          of_le32-append m.size _ v.size_word,
          of_le32-append m.timestamp _ v.time_word,
        )
        (ap (λ f. record m { flags = f }) (omega (arith, v.flags_byte)))

  decode-encode : decode (encode m ++ rest) ≡ m
  decode-encode = rw (encode-spread m rest) decode-spread

  length-encode : length (encode m) ≡ 80
  unfolding encode
  length-encode = simp (length-append, length-le32, from_long, to_long, subject_long) (omega arith)

  load_records-step :
      (fuel room next : ℕ)
      → load_records (suc fuel) (suc room) (encode m ++ rest) next ≡ (
        m ∷ (load_records fuel room rest (next_after next m.id)).0,
        (load_records fuel room rest (next_after next m.id)).1,
      )
  unfolding load_records
  load_records-step fuel room next =
      rw (long, load_records)
        (rw (kept, load_records)
          (rw (decode-encode, drop-append 80 (encode m) rest length-encode) refl))
    where
      long : ltb (length (encode m ++ rest)) 80 ≡ false
      long = ground (arith, length-append (encode m) rest, length-encode)

      kept : ((decode (encode m ++ rest)).id == 0) ≡ false
      kept = rw decode-encode (ground (arith, v.id_pos))

-- `next_id` after the ids of these records.
unfoldable pub next_over : ℕ → List Message → ℕ
next_over next [] = next
next_over next (m ∷ ms) = next_over (next_after next m.id) ms

pub load_records-encode_all :
    (ms : List Message) (fuel room next : ℕ)
    → AllStorable ms
    → length ms ≤ fuel
    → length ms ≤ room
    → load_records fuel room (encode_all ms) next ≡ (ms, next_over next ms)
unfolding encode_all next_over
load_records-encode_all [] zero room next v f r = unfold load_records in refl
load_records-encode_all [] (suc fuel) zero next v f r = unfold load_records in refl
load_records-encode_all [] (suc fuel) (suc room) next v f r = unfold load_records in refl
load_records-encode_all (m ∷ ms) zero room next v f r = absurd (omega arith)
load_records-encode_all (m ∷ ms) (suc fuel) zero next v f r = absurd (omega arith)
load_records-encode_all (m ∷ ms) (suc fuel) (suc room) next v f r = rw (
  load_records-step m (encode_all ms) v.0 fuel room next,
  load_records-encode_all ms fuel room (next_after next m.id) v.1 (omega arith) (omega arith),
)

pub length-encode_all :
    (ms : List Message) → AllStorable ms → length (encode_all ms) ≡ 80 * length ms
unfolding encode_all
length-encode_all [] v = refl
length-encode_all (m ∷ ms) v =
    rw length-append (omega (arith, length-encode_all ms v.1, length-encode m [] v.0))
