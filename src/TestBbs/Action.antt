-- ===== src/TestBbs/Action.antt =====
-- Code that works on a context and returns a value, as actions for do blocks.
use esp_tnc.Prelude.{Bool, true, false, if◌then◌else◌}

abbrev pub Action : Type 0 → Type 0 → Type 0
Action S A = S → A × S

module _ {S A : Type 0} where
  unfoldable pub pure : A → Action S A
  pure a s = (a, s)

  unfoldable pub gets : (S → A) → Action S A
  gets f s = (f s, s)

module _ {S : Type 0} where
  unfoldable pub modify : (S → S) → Action S (Unit {0})
  modify f s = (tt, f s)

module _ {S A B : Type 0} where
  infixl 10 ◌>>=◌ ◌>>◌
  unfoldable pub ◌>>=◌ : Action S A → (A → Action S B) → Action S B
  ◌>>=◌ m f s = let (a, s') = m s in f a s'

  abbrev pub ◌>>◌ : Action S A → Action S B → Action S B
  m >> n = m >>= λ _. n

-- `if (ok) { ok = ...; }`
abbrev pub and_then : {S : Type 0} → Bool → Action S Bool → Action S Bool
and_then ok m = if ok then m else pure false

-- `if (ok) { ... }`
abbrev pub when : {S : Type 0} → Bool → Action S (Unit {0}) → Action S (Unit {0})
when b m = if b then m else pure tt

-- What holds before an action holds after it.
pub record Keeps {S A : Type 0} (Inv : S → Type 0) (act : Action S A) : Type 0 where
  pub after : (x : S) → Inv x → Inv (act x).1

module _ {S A B : Type 0} {Inv : S → Type 0} (first : Action S A) (rest : A → Action S B)
    (kept : Keeps Inv first) (kept_by_rest : (r : A) → Keeps Inv (rest r)) where
  pub Keeps-bind : Keeps Inv (first >>= rest)
  unfolding ◌>>=◌
  Keeps-bind = record {
    after = λ x ok. (kept_by_rest (first x).0).after (first x).1 (kept.after x ok);
  }

module _ {S A : Type 0} {Inv : S → Type 0} where
  pub Keeps-if :
      (then_part else_part : Action S A)
      → Keeps Inv then_part
      → Keeps Inv else_part
      → (test : Bool) → Keeps Inv (if test then then_part else else_part)
  Keeps-if then_part else_part by_then by_else false = by_else
  Keeps-if then_part else_part by_then by_else true = by_then

  pub Keeps-gets : (view : S → A) → Keeps Inv (gets view)
  unfolding gets
  Keeps-gets view = record { after = λ x ok. ok }

  pub Keeps-pure : (r : A) → Keeps Inv (pure r)
  unfolding pure
  Keeps-pure r = record { after = λ x ok. ok }

pub ruleset action_rules = (Keeps-bind, Keeps-if, Keeps-gets, Keeps-pure)
