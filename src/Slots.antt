-- ===== src/Slots.antt =====
-- main/main.c: the search for a free slot, which the pools of KISS and AGWPE clients share, and
-- what it means that each slot in use has one holder.
use esp_tnc.Prelude.{
  ℕ, zero, suc, ◌+◌, ◌≤◌, ◌<◌, ◌≡◌, ◌∙◌, sym, Bool, true, false, Option, none, some, ◌==◌, update,
  arith, inl, inr, Bool-cases,
}

-- The loop over `i`, with so many slots left.
unfoldable pub first_free : (ℕ → Bool) → ℕ → ℕ → Option ℕ
first_free in_use zero i = none
first_free in_use (suc left) i = elim (in_use i) [
  | true ↦ first_free in_use left (suc i)
  | false ↦ some i
]

pub first_free-some :
    (in_use : ℕ → Bool) (left i j : ℕ)
    → first_free in_use left i ≡ some j
    → (in_use j ≡ false) × (j < i + left)
unfolding first_free
first_free-some in_use zero i j h = cc
first_free-some in_use (suc left) i j h = elim (Bool-cases (in_use i)) [
  | inl taken ↦
      (let (free, below) = first_free-some in_use left (suc i) j (rw (taken, first_free) at h) in
        (free, omega (arith, below)))
  | inr free ↦ ground (arith, free)
]

pub first_free-none :
    (in_use : ℕ → Bool) (left i j : ℕ)
    → first_free in_use left i ≡ none
    → i ≤ j
    → j < i + left
    → in_use j ≡ true
unfolding first_free
first_free-none in_use zero i j h low high = absurd (omega arith)
first_free-none in_use (suc left) i j h low high = elim (Bool-cases (in_use i)) [
  | inl taken ↦ elim (Bool-cases (i == j)) [
    | inl here ↦ ground arith
    | inr later ↦
        first_free-none in_use left (suc i) j (rw (taken, first_free) at h) (ground arith)
          (omega (arith, high))
  ]
  | inr free ↦ ground arith
]

-- `held c` is the slot of the holder `c`: the slots of different holders differ, and those in use
-- are those held.
pub record Table (held : ℕ → Option ℕ) (in_use : ℕ → Bool) : Type 0 where
  pub used : (c i : ℕ) → held c ≡ some i → in_use i ≡ true
  pub unique : (c d i : ℕ) → held c ≡ some i → held d ≡ some i → c ≡ d
  pub owner : (i : ℕ) → in_use i ≡ true → (c : ℕ) × (held c ≡ some i)

pub taken-Table :
    (held : ℕ → Option ℕ) (in_use : ℕ → Bool) (c i : ℕ)
    → Table held in_use
    → held c ≡ none
    → in_use i ≡ false
    → Table (update held c (some i)) (update in_use i true)
taken-Table held in_use c i t idle free = record {
  used = λ d j h. ground (arith, t.used d j);
  unique = λ d e j h k. ground (arith, t.unique d e j, t.used d j, t.used e j);
  owner = owned;
}
  where
    owned : (j : ℕ) → update in_use i true j ≡ true → (d : ℕ) × (update held c (some i) d ≡ some j)
    owned j h = elim (Bool-cases (i == j)) [
      | inl same ↦ (c, ground arith)
      | inr other ↦ (let (d, at) = t.owner j (ground arith) in (d, ground arith))
    ]

pub freed-Table :
    (held : ℕ → Option ℕ) (in_use : ℕ → Bool) (c i : ℕ)
    → Table held in_use
    → held c ≡ some i
    → Table (update held c none) (update in_use i false)
freed-Table held in_use c i t had = record {
  used = λ d j h. ground (arith, t.used d j, t.unique c d j);
  unique = λ d e j h k. ground (arith, t.unique d e j);
  owner = owned;
}
  where
    owned : (j : ℕ) → update in_use i false j ≡ true → (d : ℕ) × (update held c none d ≡ some j)
    owned j h = let (d, at) = t.owner j (ground arith) in (d, ground arith)

-- The same table, by other functions.
pub same-Table :
    (held held' : ℕ → Option ℕ) (in_use in_use' : ℕ → Bool)
    → ((c : ℕ) → held' c ≡ held c)
    → ((i : ℕ) → in_use' i ≡ in_use i)
    → Table held in_use
    → Table held' in_use'
same-Table held held' in_use in_use' h u t = record {
  used = λ c i e. u i ∙ t.used c i (sym (h c) ∙ e);
  unique = λ c d i e k. t.unique c d i (sym (h c) ∙ e) (sym (h d) ∙ k);
  owner = λ i e. let (c, at) = t.owner i (sym (u i) ∙ e) in (c, h c ∙ at);
}
