-- ===== src/Heard/Frames.antt =====
-- What `heard_on_frame` does to the array: the search, the two shifts and the write at the front.
use esp_tnc.Prelude.{
  ℕ, zero, suc, ◌-◌, ◌≤◌, ◌≡◌, refl, ap, true, false, none, some, List, [], ◌∷◌, ◌++◌, Bytes,
  str_eq, is_empty, ltb, if◌then◌else◌, length, get_elem?, set, take, drop, arith, tests, take_all,
  ◌⊎◌, inl, inr, Bool-cases, Option-cases, str_eq_sound,
}
use esp_tnc.Heard.{
  Entry, Heard, heard_max, compute_bucket, index?, touch, touch_found, insert_front, record_source,
}

-- No entry has the callsign `c`.
abbrev pub IsNew : Bytes → List Entry → Type 0
IsNew c [] = Unit
IsNew c (e ∷ es) = (str_eq e.callsign c ≡ false) × IsNew c es

abbrev pub AreDistinct : List Entry → Type 0
AreDistinct [] = Unit
AreDistinct (e ∷ es) = IsNew e.callsign es × AreDistinct es

abbrev pub AllFit : List Entry → Type 0
AllFit [] = Unit
AllFit (e ∷ es) = (is_empty e.callsign ≡ false) × (length e.callsign ≤ 15) × AllFit es

-- What holds of the list between two frames.
pub record IsValid (h : Heard) : Type 0 where
  pub bounded : length h.entries ≤ heard_max
  pub distinct : AreDistinct h.entries
  pub fits : AllFit h.entries

-- The entries of the other stations, in order.
unfoldable pub without : Bytes → List Entry → List Entry
without c [] = []
without c (e ∷ es) = if str_eq e.callsign c then without c es else e ∷ without c es

abbrev pub stamped : ℕ → Bytes → Entry
stamped now src = record {
  callsign = src;
  last_heard_unix = now;
  bucket_timestamp = compute_bucket now;
}

-- The specification: the station heard comes first, then the 19 heard last of the others.
unfoldable pub most_recent : ℕ → Bytes → List Entry → List Entry
most_recent now src es = stamped now src ∷ take (heard_max - 1) (without src es)

index?-none : (c : Bytes) (es : List Entry) → index? c es ≡ none → without c es ≡ es
unfolding index? without
index?-none c [] h = refl
index?-none c (e ∷ es) h = ground (arith, index?-none c es)

without_of_IsNew : (c : Bytes) (es : List Entry) → IsNew c es → without c es ≡ es
unfolding without
without_of_IsNew c [] h = refl
without_of_IsNew c (e ∷ es) h = ground (arith, without_of_IsNew c es h.1)

pub length-without : (c : Bytes) (es : List Entry) → length (without c es) ≤ length es
unfolding without
length-without c [] = omega arith
length-without c (e ∷ es) = ground (arith, length-without c es)

-- The facts about an index that the search returns.
record Found (c : Bytes) (es : List Entry) (i : ℕ) (e : Entry) : Type 0 where
  at : get_elem? es i ≡ some e
  same : e.callsign ≡ c
  rest : take i es ++ drop (suc i) es ≡ without c es
  fewer : suc (length (without c es)) ≡ length es

Found-here :
    (c : Bytes) (e : Entry) (es : List Entry)
    → str_eq e.callsign c ≡ true
    → IsNew e.callsign es
    → Found c (e ∷ es) 0 e
unfolding without
Found-here c e es same new =
    let eq = str_eq_sound e.callsign c same in
    let rest : without c es ≡ es = without_of_IsNew c es (rw eq at new) in
    record { at = refl; same = eq; rest = rw (same, rest); fewer = rw (same, rest) }

Found-later :
    (c : Bytes) (d e : Entry) (es : List Entry) (i : ℕ)
    → str_eq d.callsign c ≡ false
    → Found c es i e
    → Found c (d ∷ es) (suc i) e
unfolding without
Found-later c d e es i differs f = record {
  at = f.at;
  same = f.same;
  rest = rw differs (ap (λ l. d ∷ l) f.rest);
  fewer = rw differs (ap suc f.fewer);
}

index?-Found :
    (c : Bytes) (es : List Entry) (i : ℕ)
    → AreDistinct es
    → index? c es ≡ some i
    → (e : Entry) × Found c es i e
unfolding index?
index?-Found c [] i d h = absurd (ground arith)
index?-Found c (e ∷ es) i d h = elim (Bool-cases (str_eq e.callsign c)) [
  | inl same ↦
      (let at_front : i ≡ 0 = ground arith in (e, rw at_front (Found-here c e es same d.0)))
  | inr differs ↦ later (λ j p. index?-Found c es j d.1 p) differs (Option-cases (index? c es))
]
  where
    later :
        ((j : ℕ) → index? c es ≡ some j → (x : Entry) × Found c es j x)
        → str_eq e.callsign c ≡ false
        → ((index? c es ≡ none) ⊎ ((j : ℕ) × (index? c es ≡ some j)))
        → (x : Entry) × Found c (e ∷ es) i x
    later ih differs (inl p) = absurd (ground arith)
    later ih differs (inr (j, p)) =
        let (x, f) = ih j p in
        let next : i ≡ suc j = ground arith in (x, rw next (Found-later c e x es j differs f))

set_zero {ℓ} :
    {A : Type ℓ} (xs : List A) (x y : A)
    → get_elem? xs 0 ≡ some x
    → set xs 0 y ≡ y ∷ (take 0 xs ++ drop 1 xs)
set_zero [] x y h = absurd (ground arith)
set_zero (z ∷ xs) x y h = refl

-- Either branch of `touch` puts the entry before the rest.
entries-touch :
    (now i : ℕ) (src : Bytes) (e : Entry) (h : Heard)
    → Found src h.entries i e
    → (touch now i e h).entries ≡ stamped now src ∷ without src h.entries
unfolding touch
entries-touch now zero src e h f =
    ground (arith, f.rest, f.same, set_zero h.entries e (stamped now src) f.at)
entries-touch now (suc i) src e h f = ground (arith, f.rest, f.same)

entries-insert_front :
    (now : ℕ) (src : Bytes) (h : Heard)
    → length h.entries ≤ heard_max
    → length src ≤ 15
    → (insert_front now src h).entries ≡ stamped now src ∷ take (heard_max - 1) h.entries
unfolding insert_front
entries-insert_front now src h bounded short =
    elim (Bool-cases (ltb (length h.entries) heard_max)) [
      | inl room ↦ rw (room, take_all 15 src short, take_all 19 h.entries (omega tests))
      | inr full ↦ rw (full, take_all 15 src short)
    ]

entries-touch_found :
    (now i : ℕ) (src : Bytes) (e : Entry) (h : Heard)
    → length h.entries ≤ heard_max
    → Found src h.entries i e
    → (touch_found now i h).entries ≡ most_recent now src h.entries
unfolding touch_found most_recent
entries-touch_found now i src e h bounded f =
    rw (f.at, touch_found)
      (rw (
        entries-touch now i src e h f,
        take_all 19 (without src h.entries) (omega (arith, f.fewer)),
      ))

pub entries-record_source :
    (now : ℕ) (src : Bytes) (h : Heard)
    → IsValid h
    → length src ≤ 15
    → (record_source now src h).entries ≡ most_recent now src h.entries
unfolding record_source
entries-record_source now src h v short = elim (Option-cases (index? src h.entries)) [
  | inl new ↦
      rw (new, record_source)
        (rw (entries-insert_front now src h v.bounded short)
          (unfold most_recent in rw (index?-none src h.entries new)))
  | inr (i, at) ↦
      (let (e, f) = index?-Found src h.entries i v.distinct at in
        rw (at, record_source) (entries-touch_found now i src e h v.bounded f))
]
