-- ===== src/TestBbs/Consistent.antt =====
-- test_bbs/main/main.c: what the counters and the tracked ids always say, and that each access to
-- the context keeps it so.
use esp_tnc.Prelude.{
  ℕ, suc, ◌+◌, ◌%◌, ◌≤◌, ◌≡◌, ◌≢◌, refl, Bool, false, ◌||◌, Option, none, some, List, [], ◌∷◌, ◌++◌,
  Bytes, ltb, ◌==◌, length, length-append, if◌then◌else◌, u32_mod, arith, inl, inr, Bool-cases,
  strlcpy,
}
use esp_tnc.Esp.{EspErr}
use esp_tnc.TestBbs.Action.{Action, modify, Keeps, action_rules}
use esp_tnc.TestBbs.Parsing.{is_among}
use esp_tnc.TestBbs.Context.{
  TestResult, Context, max_created, id_already_tracked, with_tracked, track_created_id, with_result,
  record_result, on_link, on_link_, reads, wait_answer, on_wait,
}

-- How many of the results are FAIL.
unfoldable pub failures : List TestResult → ℕ
failures [] = 0
failures (r ∷ rs) = if r.pass then failures rs else suc (failures rs)

-- No id is 0, and none stands twice.
abbrev pub AreIds : List ℕ → Type 0
AreIds [] = Unit
AreIds (i ∷ is) = (i ≢ 0) × (is_among i is ≡ false) × AreIds is

-- The counters are those of the results that were put out, as 32-bit numbers; the tracked ids are
-- at most 16, none of them 0, and no two the same.
pub record IsConsistent {C : Type 0} (x : Context C) : Type 0 where
  pub run : x.tests_run ≡ length x.log % u32_mod
  pub failed : x.tests_failed ≡ failures x.log % u32_mod
  pub few : length x.created_ids ≤ max_created
  pub ids : AreIds x.created_ids

failures-append :
    (rs : List TestResult) (r : TestResult)
    → failures (rs ++ (r ∷ [])) ≡ failures rs + (if r.pass then 0 else 1)
unfolding failures
failures-append [] r = ground arith
failures-append (x ∷ rs) r = ground (arith, failures-append rs r)

is_among-append : (i j : ℕ) (is : List ℕ) → is_among i (is ++ (j ∷ [])) ≡ (is_among i is || j == i)
unfolding is_among
is_among-append i j [] = ground arith
is_among-append i j (x ∷ is) = ground (arith, is_among-append i j is)

AreIds-append :
    (j : ℕ) (is : List ℕ) → j ≢ 0 → is_among j is ≡ false → AreIds is → AreIds (is ++ (j ∷ []))
unfolding is_among
AreIds-append j [] h k v = (h, refl, tt)
AreIds-append j (i ∷ is) h k v = (
  v.0,
  ground (arith, is_among-append i j is, v.1, k),
  AreIds-append j is h (ground (arith, k)) v.2,
)

with_tracked-AreIds : (id : ℕ) (is : List ℕ) → AreIds is → AreIds (with_tracked id is)
unfolding with_tracked id_already_tracked
with_tracked-AreIds id is v = elim (Bool-cases (id == 0)) [
  | inl none_ ↦ rw (none_, with_tracked) v
  | inr some_ ↦ elim (Bool-cases (is_among id is)) [
    | inl there ↦ rw (some_, with_tracked) (rw (there, with_tracked) v)
    | inr new ↦ elim (Bool-cases (ltb (length is) max_created)) [
      | inr full ↦ rw (some_, with_tracked) (rw (new, with_tracked) (rw (full, with_tracked) v))
      | inl room ↦
          rw (some_, with_tracked)
            (rw (new, with_tracked)
              (rw (room, with_tracked) (AreIds-append id is (ground arith) new v)))
    ]
  ]
]

length-with_tracked :
    (id : ℕ) (is : List ℕ) → length is ≤ max_created → length (with_tracked id is) ≤ max_created
unfolding with_tracked
length-with_tracked id is h = ground (arith, length-append is (id ∷ []))

module _ {C : Type 0} where
  -- An update of another field changes nothing of it.
  pub IsConsistent-same :
      (x y : Context C)
      → y.tests_run ≡ x.tests_run
      → y.tests_failed ≡ x.tests_failed
      → y.log ≡ x.log
      → y.created_ids ≡ x.created_ids
      → IsConsistent x
      → IsConsistent y
  IsConsistent-same x y r f l i h = record {
    run = rw (r, l) h.run;
    failed = rw (f, l) h.failed;
    few = rw i h.few;
    ids = rw i h.ids;
  }

  pub Keeps-modify :
      (f : Context C → Context C)
      → ((x : Context C) → IsConsistent x → IsConsistent (f x))
      → Keeps IsConsistent (modify f)
  unfolding modify
  Keeps-modify f h = record { after = h }

  pub track_created_id-IsConsistent : (id : ℕ) → Keeps IsConsistent (track_created_id {C = C} id)
  unfolding track_created_id
  track_created_id-IsConsistent id =
      Keeps-modify (λ x. record x { created_ids = with_tracked id x.created_ids })
        (λ x h. record {
          run = h.run;
          failed = h.failed;
          few = length-with_tracked id x.created_ids h.few;
          ids = with_tracked-AreIds id x.created_ids h.ids;
        })

  with_result-IsConsistent :
      (r : TestResult) (x : Context C) → IsConsistent x → IsConsistent (with_result r x)
  unfolding with_result
  with_result-IsConsistent r x h = record {
    run = rw length-append (omega (arith, h.run));
    failed = ground (arith, failures-append x.log r, h.failed);
    few = h.few;
    ids = h.ids;
  }

  pub record_result-IsConsistent :
      (name : Bytes) (pass : Bool) (detail : Bytes)
      → Keeps IsConsistent (record_result {C = C} name pass detail)
  unfolding record_result
  record_result-IsConsistent name pass detail =
      let r : TestResult = record { pass = pass; name = name; detail = strlcpy 120 detail } in
      Keeps-modify (with_result r) (with_result-IsConsistent r)

  pub on_link-IsConsistent : {A : Type 0} (f : C → A × C) → Keeps IsConsistent (on_link f)
  unfolding on_link
  on_link-IsConsistent f = record { after = λ x h. IsConsistent-same x _ refl refl refl refl h }

  pub on_link_-IsConsistent : (f : C → C) → Keeps IsConsistent (on_link_ f)
  unfolding on_link_
  on_link_-IsConsistent f = record { after = λ x h. IsConsistent-same x _ refl refl refl refl h }

  pub reads-IsConsistent : (f : C → EspErr × Option Bytes × C) → Keeps IsConsistent (reads f)
  unfolding reads
  reads-IsConsistent f = record { after = λ x h. IsConsistent-same x _ refl refl refl refl h }

  wait_answer-IsConsistent :
      (r : Option Bool) (x : Context C) → IsConsistent x → IsConsistent (wait_answer r x).1
  wait_answer-IsConsistent none x h = IsConsistent-same x _ refl refl refl refl h
  wait_answer-IsConsistent (some b) x h = h

  pub on_wait-IsConsistent : (f : C → Option Bool × C) → Keeps IsConsistent (on_wait f)
  unfolding on_wait
  on_wait-IsConsistent f = record {
    after = λ x h.
        wait_answer-IsConsistent (f x.link).0 (record x { link = (f x.link).1 })
          (IsConsistent-same x _ refl refl refl refl h);
  }

pub ruleset consistent_rules = (
  action_rules, track_created_id-IsConsistent, record_result-IsConsistent, on_link-IsConsistent,
  on_link_-IsConsistent, reads-IsConsistent, on_wait-IsConsistent,
)
