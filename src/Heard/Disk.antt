-- ===== src/Heard/Disk.antt =====
-- bbs_heard.c: what heard.dat holds after a save, and what a load makes of it.
use esp_tnc.Prelude.{
  ℕ, zero, suc, ◌*◌, ◌≤◌, ◌≡◌, refl, false, List, [], ◌∷◌, ◌++◌, Bytes, is_empty, ltb, length, le32,
  arith, map, NoNul, length-append, take-append, drop-append, append_assoc, pad, length-pad,
  c_str-pad,
}
use esp_tnc.Heard.{Entry}
use esp_tnc.Heard.Store.{encode, decode, encode_all, pre_boot, read_entries}

-- An entry that the file format keeps.
pub record IsStorable (e : Entry) : Type 0 where
  pub named : is_empty e.callsign ≡ false
  pub short : length e.callsign ≤ 15
  pub text : NoNul e.callsign

abbrev pub AllStorable : List Entry → Type 0
AllStorable [] = Unit
AllStorable (e ∷ es) = IsStorable e × AllStorable es

length-encode : (e : Entry) → length e.callsign ≤ 15 → length (encode e) ≡ 24
unfolding encode le32
length-encode e h = rw length-append (omega (arith, length-pad 16 e.callsign (omega arith)))

module _ (e : Entry) (rest : Bytes) (v : IsStorable e) where
  callsign-decode : (decode (encode e ++ rest)).callsign ≡ e.callsign
  unfolding decode encode
  callsign-decode =
      rw
        (
          append_assoc,
          take-append 16 (pad 16 e.callsign) _ (length-pad 16 e.callsign (omega (arith, v.short))),
        )
        (c_str-pad 16 e.callsign (omega (arith, v.short)) v.text)

  pre_boot-decode : pre_boot (decode (encode e ++ rest)) ≡ pre_boot e
  pre_boot-decode = rw callsign-decode

  read_entries-step :
      (fuel room : ℕ)
      → read_entries (suc fuel) (suc room) (encode e ++ rest)
        ≡ pre_boot e ∷ read_entries fuel room rest
  unfolding read_entries
  read_entries-step fuel room =
      rw (long, read_entries)
        (rw (named, read_entries)
          (rw (pre_boot-decode, drop-append 24 (encode e) rest (length-encode e v.short))))
    where
      long : ltb (length (encode e ++ rest)) 24 ≡ false
      long = ground (arith, length-append (encode e) rest, length-encode e v.short)

      named : is_empty (decode (encode e ++ rest)).callsign ≡ false
      named = rw callsign-decode v.named

pub read_entries-encode_all :
    (es : List Entry) (fuel room : ℕ)
    → AllStorable es
    → length es ≤ fuel
    → length es ≤ room
    → read_entries fuel room (encode_all es) ≡ map pre_boot es
unfolding encode_all
read_entries-encode_all [] zero room v f r = unfold read_entries in refl
read_entries-encode_all [] (suc fuel) zero v f r = unfold read_entries in refl
read_entries-encode_all [] (suc fuel) (suc room) v f r = unfold read_entries in refl
read_entries-encode_all (e ∷ es) zero room v f r = absurd (omega arith)
read_entries-encode_all (e ∷ es) (suc fuel) zero v f r = absurd (omega arith)
read_entries-encode_all (e ∷ es) (suc fuel) (suc room) v f r = rw (
  read_entries-step e (encode_all es) v.0 fuel room,
  read_entries-encode_all es fuel room v.1 (omega arith) (omega arith),
)

pub length-encode_all : (es : List Entry) → AllStorable es → length (encode_all es) ≡ 24 * length es
unfolding encode_all
length-encode_all [] v = refl
length-encode_all (e ∷ es) v =
    rw length-append (omega (arith, length-encode_all es v.1, length-encode e v.0.short))
