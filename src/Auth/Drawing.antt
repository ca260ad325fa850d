-- ===== src/Auth/Drawing.antt =====
-- `sysop_generate_challenge_indices`: the indices are four different places of the secret.
use esp_tnc.Prelude.{
  ℕ, zero, suc, ◌+◌, ◌%◌, ◌≤◌, ◌<◌, ◌≡◌, refl, true, false, ◌||◌, some, List, [], ◌∷◌, ◌++◌, ◌==◌,
  length, length-append, arith, inl, inr, Bool-cases, Option-cases,
}
use esp_tnc.Auth.Challenge.{contains, draw_new, draw_all, chosen, generate_challenge_indices}

-- Places of a secret of `len` bytes, counted from 1, no two the same.
abbrev pub ArePlaces : ℕ → List ℕ → Type 0
ArePlaces len [] = Unit
ArePlaces len (i ∷ is) = (1 ≤ i) × (i ≤ len) × (contains is i ≡ false) × ArePlaces len is

contains-append : (is : List ℕ) (i j : ℕ) → contains (is ++ (i ∷ [])) j ≡ (contains is j || i == j)
unfolding contains
contains-append [] i j = ground arith
contains-append (x ∷ is) i j = ground (arith, contains-append is i j)

ArePlaces-append :
    (len i : ℕ) (is : List ℕ)
    → 1 ≤ i
    → i ≤ len
    → contains is i ≡ false
    → ArePlaces len is
    → ArePlaces len (is ++ (i ∷ []))
unfolding contains
ArePlaces-append len i [] lo hi new v = (lo, hi, refl, tt)
ArePlaces-append len i (x ∷ is) lo hi new v = (
  v.0,
  v.1,
  ground (arith, contains-append is i x, v.2),
  ArePlaces-append len i is lo hi (ground arith) v.3,
)

-- The index that a random number stands for.
abbrev pub place : ℕ → ℕ → ℕ
place len r = (r % len + 1) % 65536

place_in : (len r : ℕ) → 0 < len → len < 65536 → (1 ≤ place len r) × (place len r ≤ len)
place_in len r pos small = let lt : r % len < len = grind arith in (omega arith, omega arith)

module _ (len : ℕ) (given : List ℕ) (r : ℕ) (rs : List ℕ) where
  pub draw_new-again :
      contains given (place len r) ≡ true → draw_new len given (r ∷ rs) ≡ draw_new len given rs
  unfolding draw_new
  draw_new-again h = rw (h, draw_new) refl

  pub draw_new-found :
      contains given (place len r) ≡ false → draw_new len given (r ∷ rs) ≡ some (place len r, rs)
  unfolding draw_new
  draw_new-found h = rw (h, draw_new) refl

-- An index that was drawn is a place that was not given out.
draw_new_lem :
    (len : ℕ) (given rs : List ℕ) (idx : ℕ) (rs' : List ℕ)
    → 0 < len
    → len < 65536
    → draw_new len given rs ≡ some (idx, rs')
    → (1 ≤ idx) × (idx ≤ len) × (contains given idx ≡ false)
draw_new_lem len given [] idx rs' pos small h = absurd (unfold draw_new in ground arith)
draw_new_lem len given (r ∷ rs) idx rs' pos small h =
    elim (Bool-cases (contains given (place len r))) [
      | inl again ↦
          draw_new_lem len given rs idx rs' pos small
            (rw (draw_new-again len given r rs again) at h)
      | inr found ↦
          (let (lo, hi) = place_in len r pos small in
            let same : place len r ≡ idx = ground (arith, draw_new-found len given r rs found) in
            (rw same at lo, rw same at hi, rw same at found))
    ]

pub draw_all-step :
    (len count : ℕ) (given rs : List ℕ) (idx : ℕ) (rs' : List ℕ)
    → draw_new len given rs ≡ some (idx, rs')
    → draw_all len (suc count) given rs ≡ draw_all len count (given ++ (idx ∷ [])) rs'
unfolding draw_all
draw_all-step len count given rs idx rs' h = rw (h, draw_all) refl

draw_all_lem :
    (len count : ℕ) (given rs is : List ℕ)
    → 0 < len
    → len < 65536
    → ArePlaces len given
    → draw_all len count given rs ≡ some is
    → ArePlaces len is × (length is ≡ length given + count)
unfolding draw_all
draw_all_lem len zero given rs is pos small v h =
    let same : given ≡ is = ground arith in (rw same at v, rw same (omega arith))
draw_all_lem len (suc count) given rs is pos small v h =
    elim (Option-cases (draw_new len given rs)) [
      | inl out ↦ absurd (ground arith)
      | inr ((idx, rs'), drawn) ↦
          (let (lo, hi, new) = draw_new_lem len given rs idx rs' pos small drawn in
            let (places, long) =
              draw_all_lem len count (given ++ (idx ∷ [])) rs' is pos small
                (ArePlaces-append len idx given lo hi new v)
                (rw (draw_all-step len count given rs idx rs' drawn) at h) in
            (places, omega (arith, long, length-append given (idx ∷ []))))
    ]

-- The indices of a challenge are four different places of the secret, whatever esp_random returns.
pub generate_challenge_indices_lem :
    (len : ℕ) (draws is : List ℕ)
    → len < 65536
    → generate_challenge_indices len draws ≡ chosen is
    → ArePlaces len is × (length is ≡ 4)
unfolding generate_challenge_indices
generate_challenge_indices_lem len draws is small h =
    elim (Option-cases (draw_all len 4 [] draws)) [
      | inl out ↦ absurd (ground arith)
      | inr (found, drawn) ↦
          (let same : found ≡ is = ground arith in
            let pos : 0 < len = ground arith in
            rw same at (draw_all_lem len 4 [] draws found pos small tt drawn))
    ]
