-- ===== src/Auth/Challenge.antt =====
-- sysop_auth.c: `sysop_generate_challenge_indices`, over the numbers that esp_random returns.
use esp_tnc.Prelude.{
  ℕ, zero, suc, ◌+◌, ◌%◌, Bool, true, false, ◌||◌, Option, none, some, List, [], ◌∷◌, ◌++◌, ltb,
  ◌==◌, if◌then◌else◌,
}

-- Whether the index has been given out already.
unfoldable pub contains : List ℕ → ℕ → Bool
contains [] idx = false
contains (i ∷ is) idx = i == idx || contains is idx

-- `while (!unique)`: numbers are drawn until an index is new. `none`: they are used up.
unfoldable pub draw_new : ℕ → List ℕ → List ℕ → Option (ℕ × List ℕ)
draw_new len given [] = none
draw_new len given (r ∷ rs) =
    let idx = (r % len + 1) % 65536 in
    elim (contains given idx) [ true ↦ draw_new len given rs | false ↦ some (idx, rs) ]

-- The loop over `i`: `count` more indices.
unfoldable pub draw_all : ℕ → ℕ → List ℕ → List ℕ → Option (List ℕ)
unfolding draw_new
draw_all len zero given rs = some given
draw_all len (suc count) given rs = elim (draw_new len given rs) [
  | none ↦ none
  | some (idx, rs') ↦ draw_all len count (given ++ (idx ∷ [])) rs'
]

pub data Generated : Type 0 where
  refused running : Generated
  chosen : List ℕ → Generated

unfoldable pub generate_challenge_indices : ℕ → List ℕ → Generated
unfolding draw_all
generate_challenge_indices secret_len draws =
    if ltb secret_len 4
    then refused
    else elim (draw_all secret_len 4 [] draws) [ none ↦ running | some is ↦ chosen is ]
