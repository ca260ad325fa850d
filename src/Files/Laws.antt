-- ===== src/Files/Laws.antt =====
-- What the calls on one file leave in it, and that they leave the others alone.
use esp_tnc.Prelude.{
  ℕ, ◌≤◌, refl, ◌∙◌, sym, ap, subst, ◌⊎◌, min, length, take, take_all, ◌≡◌, Option, none, some, [],
  Bytes, str_eq, str_eq_refl, false, arith, Bool-cases, inl, inr,
}
use esp_tnc.Files.{Files, Io, put_file, open_write, write_all, after_close, unlink, rename}

pub put_file_self : (fs : Files) (p : Bytes) (d : Option Bytes) → put_file fs p d p ≡ d
unfolding put_file
put_file_self fs p d = rw (str_eq_refl p)

-- What a file holds after `d` was written to it: all of `d`, or as much as an fclose stored that
-- failed.
abbrev pub LeftOf : Io → Bytes → Bytes → Option Bytes → Type 0
LeftOf io p d content =
    (content ≡ some d)
    ⊎ ((fs : Files) × (k : ℕ) × (io.closes p fs ≡ some k) × (content ≡ some (take k d)))

-- fclose of this path works.
abbrev pub Closes : Io → Bytes → Type 0
Closes io p = (fs : Files) → io.closes p fs ≡ none

pub left_all :
    (io : Io) (p d : Bytes) (content : Option Bytes)
    → Closes io p
    → LeftOf io p d content
    → content ≡ some d
left_all io p d content works (inl whole) = whole
left_all io p d content works (inr (fs, k, fails, part)) = cc (works fs, fails)

LeftOf-after_close :
    (io : Io) (p d : Bytes) (fs : Files) (c : Option ℕ)
    → io.closes p fs ≡ c
    → LeftOf io p d (some (after_close c d))
LeftOf-after_close io p d fs none h = inl refl
LeftOf-after_close io p d fs (some k) h = inr (fs, k, h, refl)

-- Where fwrite took all of `d`.
pub write_all-file :
    (io : Io) (fs : Files) (p d : Bytes)
    → length d ≤ (write_all io fs p d).1
    → LeftOf io p d ((write_all io fs p d).0 p)
unfolding write_all
write_all-file io fs p d all =
    let n = min (io.room p fs) (length d) in
    let opened = put_file fs p (some (take n d)) in
    subst (λ c. LeftOf io p d c)
      (sym (
        put_file_self fs p _
        ∙ ap (λ t. some (after_close (io.closes p opened) t)) (take_all n d all)))
      (LeftOf-after_close io p d opened (io.closes p opened) refl)

module _ (p q : Bytes) (other : str_eq p q ≡ false) where
  pub put_file_ne : (fs : Files) (d : Option Bytes) → put_file fs p d q ≡ fs q
  unfolding put_file
  put_file_ne fs d = rw other

  pub open_write_ne : (io : Io) (fs fs' : Files) → open_write io fs p ≡ some fs' → fs' q ≡ fs q
  unfolding open_write
  open_write_ne io fs fs' h = ground (arith, put_file_ne fs (some []))

  pub write_all_ne : (io : Io) (fs : Files) (d : Bytes) → (write_all io fs p d).0 q ≡ fs q
  unfolding write_all
  write_all_ne io fs d = put_file_ne fs _

  pub unlink_ne : (io : Io) (fs : Files) → unlink io fs p q ≡ fs q
  unfolding unlink
  unlink_ne io fs = elim (Bool-cases (io.unlinks p fs)) [
    | inl gone ↦ rw gone (put_file_ne fs none)
    | inr stays ↦ rw stays
  ]

  -- A file that was moved is found under its new name.
  pub rename_target : (io : Io) (fs fs' : Files) → rename io fs p q ≡ some fs' → fs' q ≡ fs p
  unfolding rename
  rename_target io fs fs' h =
      ground (arith, put_file_ne (put_file fs q (fs p)) none, put_file_self fs q (fs p))
