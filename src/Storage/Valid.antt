-- ===== src/Storage/Valid.antt =====
-- The invariant of the message store: what the array operations keep.
use esp_tnc.Prelude.{
  ℕ, zero, suc, ◌≤◌, ◌<◌, ◌≢◌, sym, List, [], ◌∷◌, ◌++◌, length, set, take, drop, arith,
}
use esp_tnc.Storage.Index.{Message, Storage, max_config}
use esp_tnc.Storage.Records.{IsNew, AreDistinct, AllFrom, AllBelow}

pub record IsValid (st : Storage) : Type 0 where
  pub capped : length st.records ≤ st.max_messages
  pub positive : 0 < st.max_messages
  pub limited : st.max_messages ≤ max_config
  pub nonzero : AllFrom 1 st.records
  pub below : AllBelow st.next_id st.records
  pub distinct : AreDistinct st.records
  pub started : 0 < st.next_id

pub IsNew-of_AllBelow : (n k : ℕ) (ms : List Message) → AllBelow n ms → n ≤ k → IsNew k ms
IsNew-of_AllBelow n k [] h le = tt
IsNew-of_AllBelow n k (m ∷ ms) h le = (omega arith, IsNew-of_AllBelow n k ms h.1 le)

pub AllBelow-mono : (n k : ℕ) (ms : List Message) → n ≤ k → AllBelow n ms → AllBelow k ms
AllBelow-mono n k [] le h = tt
AllBelow-mono n k (m ∷ ms) le h = (omega arith, AllBelow-mono n k ms le h.1)

module _ (m : Message) where
  pub AllFrom-append :
      (n : ℕ) (ms : List Message) → n ≤ m.id → AllFrom n ms → AllFrom n (ms ++ (m ∷ []))
  AllFrom-append n [] le h = (le, tt)
  AllFrom-append n (x ∷ ms) le h = (h.0, AllFrom-append n ms le h.1)

  pub AllBelow-append :
      (n : ℕ) (ms : List Message) → m.id < n → AllBelow n ms → AllBelow n (ms ++ (m ∷ []))
  AllBelow-append n [] lt h = (lt, tt)
  AllBelow-append n (x ∷ ms) lt h = (h.0, AllBelow-append n ms lt h.1)

  IsNew-append : (id : ℕ) (ms : List Message) → m.id ≢ id → IsNew id ms → IsNew id (ms ++ (m ∷ []))
  IsNew-append id [] ne h = (ne, tt)
  IsNew-append id (x ∷ ms) ne h = (h.0, IsNew-append id ms ne h.1)

  pub AreDistinct-append :
      (ms : List Message) → IsNew m.id ms → AreDistinct ms → AreDistinct (ms ++ (m ∷ []))
  AreDistinct-append [] n d = (tt, tt)
  AreDistinct-append (x ∷ ms) n d =
      (IsNew-append x.id ms (λ e. n.0 (sym e)) d.0, AreDistinct-append ms n.1 d.1)

  pub AllFrom-set : (n i : ℕ) (ms : List Message) → n ≤ m.id → AllFrom n ms → AllFrom n (set ms i m)
  AllFrom-set n i [] le h = tt
  AllFrom-set n zero (x ∷ ms) le h = (le, h.1)
  AllFrom-set n (suc i) (x ∷ ms) le h = (h.0, AllFrom-set n i ms le h.1)

  pub AllBelow-set :
      (n i : ℕ) (ms : List Message) → m.id < n → AllBelow n ms → AllBelow n (set ms i m)
  AllBelow-set n i [] lt h = tt
  AllBelow-set n zero (x ∷ ms) lt h = (lt, h.1)
  AllBelow-set n (suc i) (x ∷ ms) lt h = (h.0, AllBelow-set n i ms lt h.1)

  IsNew-set : (id i : ℕ) (ms : List Message) → m.id ≢ id → IsNew id ms → IsNew id (set ms i m)
  IsNew-set id i [] ne h = tt
  IsNew-set id zero (x ∷ ms) ne h = (ne, h.1)
  IsNew-set id (suc i) (x ∷ ms) ne h = (h.0, IsNew-set id i ms ne h.1)

  pub AreDistinct-set :
      (i : ℕ) (ms : List Message) → IsNew m.id ms → AreDistinct ms → AreDistinct (set ms i m)
  AreDistinct-set i [] n d = tt
  AreDistinct-set zero (x ∷ ms) n d = (n.1, d.1)
  AreDistinct-set (suc i) (x ∷ ms) n d =
      (IsNew-set x.id i ms (λ e. n.0 (sym e)) d.0, AreDistinct-set i ms n.1 d.1)

-- The records but the one at `i`.
abbrev pub remove : ℕ → List Message → List Message
remove i ms = take i ms ++ drop (suc i) ms

AllFrom-remove : (n i : ℕ) (ms : List Message) → AllFrom n ms → AllFrom n (remove i ms)
AllFrom-remove n zero [] h = tt
AllFrom-remove n (suc i) [] h = tt
AllFrom-remove n zero (x ∷ ms) h = h.1
AllFrom-remove n (suc i) (x ∷ ms) h = (h.0, AllFrom-remove n i ms h.1)

AllBelow-remove : (n i : ℕ) (ms : List Message) → AllBelow n ms → AllBelow n (remove i ms)
AllBelow-remove n zero [] h = tt
AllBelow-remove n (suc i) [] h = tt
AllBelow-remove n zero (x ∷ ms) h = h.1
AllBelow-remove n (suc i) (x ∷ ms) h = (h.0, AllBelow-remove n i ms h.1)

IsNew-remove : (id i : ℕ) (ms : List Message) → IsNew id ms → IsNew id (remove i ms)
IsNew-remove id zero [] h = tt
IsNew-remove id (suc i) [] h = tt
IsNew-remove id zero (x ∷ ms) h = h.1
IsNew-remove id (suc i) (x ∷ ms) h = (h.0, IsNew-remove id i ms h.1)

AreDistinct-remove : (i : ℕ) (ms : List Message) → AreDistinct ms → AreDistinct (remove i ms)
AreDistinct-remove zero [] h = tt
AreDistinct-remove (suc i) [] h = tt
AreDistinct-remove zero (x ∷ ms) h = h.1
AreDistinct-remove (suc i) (x ∷ ms) h = (IsNew-remove x.id i ms h.0, AreDistinct-remove i ms h.1)

length-remove : (i : ℕ) (ms : List Message) → length (remove i ms) ≤ length ms
length-remove zero [] = omega arith
length-remove (suc i) [] = omega arith
length-remove zero (x ∷ ms) = omega arith
length-remove (suc i) (x ∷ ms) = omega (arith, length-remove i ms)

pub remove-IsValid :
    (i : ℕ) (st : Storage) → IsValid st → IsValid (record st { records = remove i st.records })
remove-IsValid i st v = record {
  capped = omega (arith, v.capped, length-remove i st.records);
  positive = v.positive;
  limited = v.limited;
  nonzero = AllFrom-remove 1 i st.records v.nonzero;
  below = AllBelow-remove st.next_id i st.records v.below;
  distinct = AreDistinct-remove i st.records v.distinct;
  started = v.started;
}
