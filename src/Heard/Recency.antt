-- ===== src/Heard/Recency.antt =====
-- `heard_on_frame` keeps a bounded list of distinct callsigns in the order last heard.
use esp_tnc.Prelude.{
  ℕ, zero, suc, ◌≤◌, ◌≡◌, true, false, List, [], ◌∷◌, Bytes, str_eq, is_empty, length, length-take,
  take, arith, inl, inr, Bool-cases,
}
use esp_tnc.Heard.{Entry, Heard, seconds, record_source, on_frame}
use esp_tnc.Heard.Frames.{
  IsNew, AreDistinct, AllFit, IsValid, without, most_recent, entries-record_source,
}

-- A frame that `heard_on_frame` does not drop: the list runs, the source has a name of at most
-- 15 bytes, and it is not the filtered callsign.
pub record IsHeard (src : Bytes) (h : Heard) : Type 0 where
  pub running : h.initialized ≡ true
  pub named : is_empty src ≡ false
  pub short : length src ≤ 15
  pub others : str_eq src h.bbs_callsign ≡ false

on_frame-record_source :
    (us : ℕ) (src : Bytes) (h : Heard)
    → IsHeard src h
    → on_frame us src h ≡ record_source (seconds us) src h
unfolding on_frame
on_frame-record_source us src h v = ground arith

-- On a valid list, a frame that is not dropped leaves the source at the front, stamped with the
-- time and its bucket, and behind it the 19 most recent of the other stations, in their order.
pub on_frame_refines :
    (us : ℕ) (src : Bytes) (h : Heard)
    → IsValid h
    → IsHeard src h
    → (on_frame us src h).entries ≡ most_recent (seconds us) src h.entries
on_frame_refines us src h v heard =
    rw (on_frame-record_source us src h heard)
      (entries-record_source (seconds us) src h v heard.short)

IsNew-without : (c d : Bytes) (es : List Entry) → IsNew d es → IsNew d (without c es)
unfolding without
IsNew-without c d [] h = tt
IsNew-without c d (e ∷ es) h = ground (arith, IsNew-without c d es h.1)

without-IsNew : (c : Bytes) (es : List Entry) → IsNew c (without c es)
unfolding without
without-IsNew c [] = tt
without-IsNew c (e ∷ es) = ground (arith, without-IsNew c es)

AreDistinct-without : (c : Bytes) (es : List Entry) → AreDistinct es → AreDistinct (without c es)
unfolding without
AreDistinct-without c [] h = tt
AreDistinct-without c (e ∷ es) h =
    ground (arith, AreDistinct-without c es h.1, IsNew-without c e.callsign es h.0)

AllFit-without : (c : Bytes) (es : List Entry) → AllFit es → AllFit (without c es)
unfolding without
AllFit-without c [] h = tt
AllFit-without c (e ∷ es) h = ground (arith, AllFit-without c es h.2)

IsNew-take : (n : ℕ) (d : Bytes) (es : List Entry) → IsNew d es → IsNew d (take n es)
IsNew-take zero d es h = tt
IsNew-take (suc n) d [] h = tt
IsNew-take (suc n) d (e ∷ es) h = (h.0, IsNew-take n d es h.1)

AreDistinct-take : (n : ℕ) (es : List Entry) → AreDistinct es → AreDistinct (take n es)
AreDistinct-take zero es h = tt
AreDistinct-take (suc n) [] h = tt
AreDistinct-take (suc n) (e ∷ es) h = (IsNew-take n e.callsign es h.0, AreDistinct-take n es h.1)

AllFit-take : (n : ℕ) (es : List Entry) → AllFit es → AllFit (take n es)
AllFit-take zero es h = tt
AllFit-take (suc n) [] h = tt
AllFit-take (suc n) (e ∷ es) h = (h.0, h.1, AllFit-take n es h.2)

record_source-IsValid :
    (now : ℕ) (src : Bytes) (h : Heard)
    → IsValid h
    → is_empty src ≡ false
    → length src ≤ 15
    → IsValid (record_source now src h)
record_source-IsValid now src h v named short =
    let others = without src h.entries in
    let spec = entries-record_source now src h v short in
    record {
      bounded = rw spec (unfold most_recent in omega (arith, length-take 19 others));
      distinct = rw spec (
          unfold most_recent in
          (
            IsNew-take 19 src others (without-IsNew src h.entries),
            AreDistinct-take 19 others (AreDistinct-without src h.entries v.distinct),
          ));
      fits = rw spec (
          unfold most_recent in
          (named, short, AllFit-take 19 others (AllFit-without src h.entries v.fits)));
    }

-- Every frame, dropped or not, keeps the list valid: at most 20 entries, no callsign twice, and
-- each callsign a non-empty text that fits its 16 bytes, if the source's text fits them.
pub on_frame-IsValid :
    (us : ℕ) (src : Bytes) (h : Heard) → IsValid h → length src ≤ 15 → IsValid (on_frame us src h)
unfolding on_frame
on_frame-IsValid us src h v short = elim (Bool-cases (is_empty src)) [
  | inl empty ↦ rw empty (ground arith)
  | inr named ↦ ground (arith, record_source-IsValid (seconds us) src h v named short)
]
