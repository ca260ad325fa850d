-- ===== src/Auth/Ending.antt =====
-- `sysop_generate_challenge_indices` ends: the loop that draws until an index is new.
use esp_tnc.Prelude.{
  ℕ, zero, suc, ◌+◌, ◌%◌, ◌≤◌, ◌<◌, ◌≡◌, refl, ◌∙◌, Bool, true, false, ◌||◌, some, List, [], ◌∷◌,
  ◌++◌, append_assoc, ◌==◌, ==_iff, length, length-append, arith, inl, inr, Bool-cases,
}
use esp_tnc.Auth.Challenge.{contains, draw_new, draw_all, chosen, generate_challenge_indices}
use esp_tnc.Auth.Drawing.{place, draw_new-again, draw_new-found, draw_all-step}

-- A run of numbers in which every one of the first four places comes up.
abbrev offers : ℕ → List ℕ → ℕ → Bool
offers len [] k = false
offers len (r ∷ rs) k = r % len == k || offers len rs k

abbrev pub OffersAll : ℕ → List ℕ → Type 0
OffersAll len rs =
    (offers len rs 0 ≡ true)
    × (offers len rs 1 ≡ true)
    × (offers len rs 2 ≡ true)
    × (offers len rs 3 ≡ true)

-- `count` such runs, one after the other.
abbrev pub IsRich : ℕ → ℕ → List ℕ → Type 0
IsRich zero len rs = Unit
IsRich (suc count) len rs =
    (run : List ℕ) × (rest : List ℕ) × (rs ≡ run ++ rest)
    × OffersAll len run
    × IsRich count len rest

-- Three indices leave one of the first four places free.
one_free :
    (given : List ℕ)
    → length given ≤ 3
    → contains given 1 ≡ true
    → contains given 2 ≡ true
    → contains given 3 ≡ true
    → contains given 4 ≡ true
    → ⊥
unfolding contains
one_free [] h a b c d = ground arith
one_free (x ∷ []) h a b c d = ground arith
one_free (x ∷ y ∷ []) h a b c d = ground arith
one_free (x ∷ y ∷ z ∷ []) h a b c d = ground arith
one_free (x ∷ y ∷ z ∷ w ∷ given) h a b c d = absurd (omega arith)

offers_later :
    (len k : ℕ) (given : List ℕ) (r : ℕ) (run : List ℕ)
    → k < 4
    → offers len (r ∷ run) k ≡ true
    → contains given (suc k) ≡ false
    → contains given (place len r) ≡ true
    → offers len run k ≡ true
offers_later len k given r run small o free again = elim (Bool-cases (r % len == k)) [
  | inl same ↦
      (let e : place len r ≡ suc k = omega (arith, (==_iff (r % len) k).0 same) in
        cc (free, rw e at again))
  | inr other ↦ ground arith
]

-- If the run offers a free place, the draw ends within it.
draw_new_offered :
    (len k : ℕ) (given run rest : List ℕ)
    → k < 4
    → offers len run k ≡ true
    → contains given (suc k) ≡ false
    → (idx : ℕ) × (more : List ℕ) × (draw_new len given (run ++ rest) ≡ some (idx, more ++ rest))
draw_new_offered len k given [] rest small o free = absurd (ground arith)
draw_new_offered len k given (r ∷ run) rest small o free =
    elim (Bool-cases (contains given (place len r))) [
      | inr found ↦ (place len r, run, draw_new-found len given r (run ++ rest) found)
      | inl again ↦
          (let later = offers_later len k given r run small o free again in
            let (idx, more, drawn) = draw_new_offered len k given run rest small later free in
            (idx, more, rw (draw_new-again len given r (run ++ rest) again) drawn))
    ]

-- So does it wherever the first four places all come up.
draw_new_ends :
    (len : ℕ) (given run rest : List ℕ)
    → length given ≤ 3
    → OffersAll len run
    → (idx : ℕ) × (more : List ℕ) × (draw_new len given (run ++ rest) ≡ some (idx, more ++ rest))
draw_new_ends len given run rest few (o₀, o₁, o₂, o₃) = elim (Bool-cases (contains given 1)) [
  | inr free ↦ draw_new_offered len 0 given run rest (omega arith) o₀ free
  | inl a ↦ elim (Bool-cases (contains given 2)) [
    | inr free ↦ draw_new_offered len 1 given run rest (omega arith) o₁ free
    | inl b ↦ elim (Bool-cases (contains given 3)) [
      | inr free ↦ draw_new_offered len 2 given run rest (omega arith) o₂ free
      | inl c ↦ elim (Bool-cases (contains given 4)) [
        | inr free ↦ draw_new_offered len 3 given run rest (omega arith) o₃ free
        | inl d ↦ absurd (one_free given few a b c d)
      ]
    ]
  ]
]

offers-append :
    (len k : ℕ) (front run : List ℕ) → offers len run k ≡ true → offers len (front ++ run) k ≡ true
offers-append len k [] run o = o
offers-append len k (r ∷ front) run o = ground (arith, offers-append len k front run o)

-- Numbers in front of a rich list only make its first run longer.
IsRich-append :
    (count len : ℕ) (front rs : List ℕ) → IsRich count len rs → IsRich count len (front ++ rs)
IsRich-append zero len front rs h = tt
IsRich-append (suc count) len front rs (run, rest, e, o, more) = (
  front ++ run,
  rest,
  rw e (rw append_assoc),
  (
    offers-append len 0 front run o.0,
    offers-append len 1 front run o.1,
    offers-append len 2 front run o.2,
    offers-append len 3 front run o.3,
  ),
  more,
)

draw_all_ends :
    (len count : ℕ) (given rs : List ℕ)
    → length given + count ≤ 4
    → IsRich count len rs
    → (is : List ℕ) × (draw_all len count given rs ≡ some is)
draw_all_ends len zero given rs few rich = (given, unfold draw_all in refl)
draw_all_ends len (suc count) given rs few (run, rest, e, o, more) =
    let (idx, left, drawn) = draw_new_ends len given run rest (omega arith) o in
    let (is, all) =
      draw_all_ends len count (given ++ (idx ∷ [])) (left ++ rest)
        (omega (arith, length-append given (idx ∷ []))) (IsRich-append count len left rest more) in
    (is, draw_all-step len count given rs idx (left ++ rest) (rw e drawn) ∙ all)

-- The search for the indices ends: for a secret of at least four bytes, it has found them once the
-- random numbers contain four runs, one after the other, in each of which every one of the first
-- four places has come up.
pub generate_challenge_indices_ends :
    (len : ℕ) (draws : List ℕ)
    → 4 ≤ len
    → IsRich 4 len draws
    → (is : List ℕ) × (generate_challenge_indices len draws ≡ chosen is)
unfolding generate_challenge_indices
generate_challenge_indices_ends len draws four rich =
    let (is, all) = draw_all_ends len 4 [] draws (omega arith) rich in (is, ground (arith, all))
