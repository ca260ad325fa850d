-- ===== src/Storage/Records.antt =====
-- The index as a map from ids: what the array operations of bbs_storage.c do to it.
use esp_tnc.Prelude.{
  ℕ, zero, suc, ◌+◌, ◌≤◌, ◌<◌, ◌≡◌, ◌≢◌, refl, sym, true, false, Option, none, some, List, [], ◌∷◌,
  ◌++◌, ltb, ◌==◌, if◌then◌else◌, length, get_elem?, set, take, drop, arith, ◌⊎◌, inl, inr,
  Bool-cases,
}
use native.Mathlib.Numerals.{add-one}
use esp_tnc.Storage.{find_record_idx, find, oldest_from, oldest}
use esp_tnc.Storage.Index.{Message, Storage}

-- The first record with this id.
unfoldable pub first : ℕ → List Message → Option Message
first id [] = none
first id (m ∷ ms) = if m.id == id then some m else first id ms

abbrev pub IsNew : ℕ → List Message → Type 0
IsNew id [] = Unit
IsNew id (m ∷ ms) = (m.id ≢ id) × IsNew id ms

abbrev pub AreDistinct : List Message → Type 0
AreDistinct [] = Unit
AreDistinct (m ∷ ms) = IsNew m.id ms × AreDistinct ms

abbrev pub AllFrom : ℕ → List Message → Type 0
AllFrom id [] = Unit
AllFrom id (m ∷ ms) = (id ≤ m.id) × AllFrom id ms

abbrev pub AllBelow : ℕ → List Message → Type 0
AllBelow id [] = Unit
AllBelow id (m ∷ ms) = (m.id < id) × AllBelow id ms

first-none : (id : ℕ) (ms : List Message) → IsNew id ms → first id ms ≡ none
unfolding first
first-none id [] h = refl
first-none id (m ∷ ms) h = ground (arith, first-none id ms)

-- `bbs_storage_find` is the first record with the id.
found_at : ℕ → List Message → Option Message
found_at id ms = elim (find_record_idx id ms) [ none ↦ none | some i ↦ get_elem? ms i ]

found_at-first : (id : ℕ) (ms : List Message) → found_at id ms ≡ first id ms
unfolding found_at find_record_idx first
found_at-first id [] = refl
found_at-first id (m ∷ ms) = ground (arith, found_at-first id ms)

pub find-first : (st : Storage) (id : ℕ) → find st id ≡ first id st.records
unfolding find
find-first st id = (unfold found_at in found_at-first id st.records)

pub first-append :
    (j : ℕ) (m : Message) (ms : List Message)
    → IsNew m.id ms
    → first j (ms ++ (m ∷ [])) ≡ (if m.id == j then some m else first j ms)
unfolding first
first-append j m [] h = refl
first-append j m (x ∷ ms) h = ground (arith, first-append j m ms)

pub IsNew-at :
    (id i : ℕ) (old : Message) (ms : List Message)
    → IsNew id ms
    → get_elem? ms i ≡ some old
    → old.id ≢ id
IsNew-at id i old [] n h = absurd (ground arith)
IsNew-at id zero old (x ∷ ms) n h = ground arith
IsNew-at id (suc i) old (x ∷ ms) n h = IsNew-at id i old ms n.1 h

pub AllBelow-at :
    (i id : ℕ) (old : Message) (ms : List Message)
    → AllBelow id ms
    → get_elem? ms i ≡ some old
    → old.id < id
AllBelow-at i id old [] n h = absurd (ground arith)
AllBelow-at zero id old (x ∷ ms) n h = ground arith
AllBelow-at (suc i) id old (x ∷ ms) n h = AllBelow-at i id old ms n.1 h

-- Replacing the record of `old` at `i`.
pub first-set :
    (j i : ℕ) (m old : Message) (ms : List Message)
    → AreDistinct ms
    → IsNew m.id ms
    → get_elem? ms i ≡ some old
    → first j (set ms i m)
      ≡ (if m.id == j then some m else if old.id == j then none else first j ms)
unfolding first
first-set j i m old [] d n h = absurd (ground arith)
first-set j zero m old (x ∷ ms) d n h = ground (arith, first-none j ms)
first-set j (suc i) m old (x ∷ ms) d n h =
    ground (arith, first-set j i m old ms, IsNew-at x.id i old ms d.0)

pub first-at :
    (i : ℕ) (old : Message) (ms : List Message)
    → get_elem? ms i ≡ some old
    → (m : Message) × (first old.id ms ≡ some m)
unfolding first
first-at i old [] h = absurd (ground arith)
first-at zero old (x ∷ ms) h = (x, ground arith)
first-at (suc i) old (x ∷ ms) h =
    let (m, found) = first-at i old ms h in
    elim (Bool-cases (x.id == old.id)) [ inl same ↦ (x, rw same) | inr other ↦ (m, rw other found) ]

-- No record is found under an id that is less than all.
pub AllFrom-first :
    (id j : ℕ) (m : Message) (ms : List Message) → AllFrom id ms → first j ms ≡ some m → id ≤ j
unfolding first
AllFrom-first id j m [] h found = absurd (ground arith)
AllFrom-first id j m (x ∷ ms) h found = ground (arith, AllFrom-first id j m ms h.1)

-- Moving up the records behind `i`.
pub first-remove :
    (j id i : ℕ) (ms : List Message)
    → AreDistinct ms
    → find_record_idx id ms ≡ some i
    → first j (take i ms ++ drop (suc i) ms) ≡ (if id == j then none else first j ms)
unfolding first find_record_idx
first-remove j id i [] d h = absurd (ground arith)
first-remove j id zero (x ∷ ms) d h = ground (arith, first-none j ms)
first-remove j id (suc i) (x ∷ ms) d h = ground (arith, first-remove j id i ms)

-- The outcome of the search for the oldest: the start is kept, or the record at an offset wins.
record IsOldest (idx id i : ℕ) (ms : List Message) (out : ℕ × ℕ) : Type 0 where
  below_start : out.1 ≤ id
  below_rest : AllFrom out.1 ms
  place :
      ((out.0 ≡ idx) × (out.1 ≡ id))
      ⊎ ((k : ℕ) × (m : Message) × (out.0 ≡ k + i) × (get_elem? ms k ≡ some m) × (m.id ≡ out.1))

module _ (idx id i : ℕ) (m : Message) (ms : List Message) (out : ℕ × ℕ) where
  IsOldest-take :
      ltb m.id id ≡ true → IsOldest i m.id (suc i) ms out → IsOldest idx id i (m ∷ ms) out
  IsOldest-take less o = record {
    below_start = ground (arith, o.below_start);
    below_rest = (o.below_start, o.below_rest);
    place = elim o.place [
      | inl here ↦ inr (0, m, omega (arith, here), refl, sym here.1)
      | inr (k, x, far, at, same) ↦ inr (suc k, x, omega (arith, far), at, same)
    ];
  }

  IsOldest-skip :
      ltb m.id id ≡ false → IsOldest idx id (suc i) ms out → IsOldest idx id i (m ∷ ms) out
  IsOldest-skip more o = record {
    below_start = o.below_start;
    below_rest = (ground (arith, o.below_start), o.below_rest);
    place = elim o.place [
      | inl start ↦ inl start
      | inr (k, x, far, at, same) ↦ inr (suc k, x, omega (arith, far), at, same)
    ];
  }

oldest_from-IsOldest :
    (idx id i : ℕ) (ms : List Message) → IsOldest idx id i ms (oldest_from idx id i ms)
unfolding oldest_from
oldest_from-IsOldest idx id i [] = record {
  below_start = omega arith;
  below_rest = tt;
  place = inl (refl, refl);
}
oldest_from-IsOldest idx id i (m ∷ ms) = elim (Bool-cases (ltb m.id id)) [
  | inl less ↦ rw less (IsOldest-take idx id i m ms _ less (oldest_from-IsOldest i m.id (suc i) ms))
  | inr more ↦ rw more (IsOldest-skip idx id i m ms _ more (oldest_from-IsOldest idx id (suc i) ms))
]

-- The oldest record of an index that has one: its place, and that no id is less.
pub oldest_lem :
    (ms : List Message)
    → 0 < length ms
    → (m : Message) × (get_elem? ms (oldest ms).0 ≡ some m)
      × (m.id ≡ (oldest ms).1)
      × AllFrom (oldest ms).1 ms
unfolding oldest
oldest_lem [] h = absurd (omega arith)
oldest_lem (x ∷ ms) h = elim o.place [
  | inl here ↦ (x, rw here.0 refl, sym here.1, (o.below_start, o.below_rest))
  | inr (k, m, far, at, same) ↦ (m, rw (far, add-one) at, same, (o.below_start, o.below_rest))
]
  where
    o : IsOldest 0 x.id 1 ms (oldest_from 0 x.id 1 ms)
    o = oldest_from-IsOldest 0 x.id 1 ms
