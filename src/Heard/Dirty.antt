-- ===== src/Heard/Dirty.antt =====
-- The dirty mark of `heard_on_frame`.
use esp_tnc.Prelude.{
  ℕ, zero, suc, ◌≡◌, refl, false, some, List, [], ◌∷◌, Bytes, arith, map, set, get_elem?,
  Option-cases, inl, inr,
}
use esp_tnc.Heard.{
  Entry, Heard, compute_bucket, seconds, index?, touch, touch_found, insert_front, record_source,
  on_frame,
}

-- What the mark watches of an entry: the station and the quarter of an hour.
abbrev pub shape : Entry → Bytes × ℕ
shape e = (e.callsign, e.bucket_timestamp)

-- A change of the order or of a bucket.
abbrev pub IsUntouched : Heard → Heard → Type 0
IsUntouched h h' = (h.dirty ≡ false) × (map shape h'.entries ≡ map shape h.entries)

shape-set_front :
    (es : List Entry) (e : Entry) (now b : ℕ)
    → get_elem? es 0 ≡ some e
    → e.bucket_timestamp ≡ b
    → map shape (set es 0 (record e { last_heard_unix = now; bucket_timestamp = b })) ≡ map shape es
shape-set_front [] e now b h same = refl
shape-set_front (x ∷ es) e now b h same = ground arith

touch-IsUntouched :
    (now i : ℕ) (e : Entry) (h : Heard)
    → get_elem? h.entries i ≡ some e
    → (touch now i e h).dirty ≡ false
    → IsUntouched h (touch now i e h)
unfolding touch
touch-IsUntouched now zero e h at clean =
    ground (arith, shape-set_front h.entries e now (compute_bucket now) at)
touch-IsUntouched now (suc i) e h at clean = absurd (ground arith)

-- A result that is clean is untouched.
abbrev CleanIsUntouched : Heard → Heard → Type 0
CleanIsUntouched h h' = h'.dirty ≡ false → IsUntouched h h'

touch_found-CleanIsUntouched : (now i : ℕ) (h : Heard) → CleanIsUntouched h (touch_found now i h)
unfolding touch_found
touch_found-CleanIsUntouched now i h = elim (Option-cases (get_elem? h.entries i)) [
  | inl out ↦ rw (out, touch_found) (λ clean. (clean, refl))
  | inr (e, at) ↦ rw (at, touch_found) (touch-IsUntouched now i e h at)
]

record_source-CleanIsUntouched :
    (now : ℕ) (src : Bytes) (h : Heard) → CleanIsUntouched h (record_source now src h)
unfolding record_source insert_front
record_source-CleanIsUntouched now src h = elim (Option-cases (index? src h.entries)) [
  | inl new ↦ rw (new, record_source) (λ clean. cc)
  | inr (i, at) ↦ rw (at, record_source) (touch_found-CleanIsUntouched now i h)
]

-- The dirty mark misses nothing: if the list is clean after a frame, it was clean before, and the
-- frame changed no callsign, no bucket and no position.
pub on_frame_clean :
    (us : ℕ) (src : Bytes) (h : Heard)
    → (on_frame us src h).dirty ≡ false
    → (h.dirty ≡ false) × (map shape (on_frame us src h).entries ≡ map shape h.entries)
unfolding on_frame
on_frame_clean us src h clean = ground (arith, record_source-CleanIsUntouched (seconds us) src h)
