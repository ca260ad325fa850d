-- ===== src/Auth/Matching.antt =====
-- sysop_auth.c: `sysop_verify_response`.
use mathlib.Core.Option
use esp_tnc.Prelude.{
  ℕ, suc, ◌-◌, Bool, true, false, not, ◌&&◌, Option, none, some, List, [], ◌∷◌, Bytes, ◌==◌,
  if◌then◌else◌, length, get_or, set,
}

-- The bytes of the secret that the indices ask for; `none` if one of them is 0.
unfoldable pub required_bytes : Bytes → List ℕ → Option Bytes
required_bytes secret [] = some []
required_bytes secret (idx ∷ is) =
    if idx == 0
    then none
    else Option.map (λ r. get_or secret (idx - 1) 0 ∷ r) (required_bytes secret is)

-- The inner loop: the first byte of the response that is unused and the one required.
unfoldable pub find_unused : ℕ → Bytes → List Bool → Option ℕ
find_unused c [] used = none
find_unused c (x ∷ xs) [] = none
find_unused c (x ∷ xs) (u ∷ us) =
    if not u && x == c then some 0 else Option.map suc (find_unused c xs us)

-- The outer loop and the conjunction after it: one byte with no match decides.
unfoldable pub match_all : Bytes → Bytes → List Bool → Bool
match_all [] response used = true
match_all (c ∷ cs) response used = elim (find_unused c response used) [
  | none ↦ false
  | some j ↦ match_all cs response (set used j true)
]

abbrev pub unused : List Bool
unused = false ∷ false ∷ false ∷ false ∷ false ∷ false ∷ []

unfoldable pub verify_response : Bytes → List ℕ → ℕ → Bytes → Bool
verify_response secret indices active_id response =
    if active_id == 0
    then false
    else if not (length response == 6)
    then false
    else elim (required_bytes secret indices) [
      | none ↦ false
      | some required ↦ match_all required response unused
    ]
