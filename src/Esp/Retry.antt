-- ===== src/Esp/Retry.antt =====
-- The loop over attempts that main/main.c and the test programs write around a send: only a full
-- queue, ESP_ERR_NO_MEM, is tried again, after a delay.
use esp_tnc.Prelude.{ℕ, zero, suc, ◌<◌, ◌≡◌, refl, true, false, arith, inl, inr, ◌⊎◌, Bool-cases}
use esp_tnc.Esp.{EspErr, no_mem, is_no_mem}

module _ {C : Type 0} (attempt : C → EspErr × C) (delay : C → C) where
  -- With so many attempts left.
  unfoldable pub retry : ℕ → C → EspErr × C
  retry zero c = (no_mem, c)
  retry (suc left) c =
      let (err, c') = attempt c in
      elim (is_no_mem err) [ true ↦ retry left (delay c') | false ↦ (err, c') ]

  -- The state before the attempt that follows so many others.
  abbrev pub before : ℕ → C → C
  before zero c = c
  before (suc i) c = before i (delay (attempt c).1)

  -- What `n` attempts from `c` come to: a number of them found the queue full, and either the next
  -- one, which is still among the `n`, did not, and its result is the result; or all did.
  pub record Retried (n : ℕ) (c : C) (r : EspErr × C) : Type 0 where
    pub full : ℕ
    pub found_full : (i : ℕ) → i < full → is_no_mem (attempt (before i c)).0 ≡ true
    pub result :
        ((full < n)
          × (is_no_mem (attempt (before full c)).0 ≡ false)
          × (r ≡ attempt (before full c)))
        ⊎ ((full ≡ n) × (r ≡ (no_mem, before n c)))

  one_more :
      (n : ℕ) (c : C) (r : EspErr × C)
      → is_no_mem (attempt c).0 ≡ true
      → Retried n (delay (attempt c).1) r
      → Retried (suc n) c r
  one_more n c r first k = record {
    full = suc k.full;
    found_full = also;
    result = elim k.result [
      | inl (below, decided, same) ↦ inl (omega (arith, below), decided, same)
      | inr (all, same) ↦ inr (omega (arith, all), same)
    ];
  }
    where
      also : (i : ℕ) → i < suc k.full → is_no_mem (attempt (before i c)).0 ≡ true
      also zero h = first
      also (suc i) h = k.found_full i (omega arith)

  pub retry-Retried : (n : ℕ) (c : C) → Retried n c (retry n c)
  unfolding retry
  retry-Retried zero c = record {
    full = 0;
    found_full = λ i h. absurd (omega arith);
    result = inr (refl, refl);
  }
  retry-Retried (suc n) c = elim (Bool-cases (is_no_mem (attempt c).0)) [
    | inl full ↦
        rw (full, retry)
          (one_more n c (retry n (delay (attempt c).1)) full
            (retry-Retried n (delay (attempt c).1)))
    | inr decided ↦
        rw (decided, retry)
          (record {
            full = 0;
            found_full = λ i h. absurd (omega arith);
            result = inl (omega arith, decided, refl);
          })
  ]
