-- ===== src/Bbs/Stream.antt =====
-- main/bbs.c: `bbs_on_data` sees one stream of bytes, with three kinds of line ends.
use esp_tnc.Prelude.{
  ℕ, ◌≡◌, ◌≢◌, refl, ◌∙◌, sym, ap, Bool, true, false, not, [], ◌∷◌, ◌++◌, Bytes, if◌then◌else◌,
  arith, inl, inr, Bool-cases,
}
use esp_tnc.Bbs.Outside.{Platform}
use esp_tnc.Bbs.State.{Bbs}
use esp_tnc.Bbs.Lines.{process_input_line, on_lf, on_text, on_line_byte, on_byte, on_bytes, on_data}
use esp_tnc.Bbs.Connected.{on_bytes-connected}

module _ {C : Type 0} (pf : Platform C) where
  on_bytes-append :
      (s t : Bytes) (b : Bbs C) → on_bytes pf (s ++ t) b ≡ on_bytes pf t (on_bytes pf s b)
  unfolding on_bytes
  on_bytes-append [] t b = refl
  on_bytes-append (c ∷ s) t b = on_bytes-append s t (if b.stuck then b else on_byte pf c b)

  -- How the stream was cut into frames makes no difference: bytes that come in two calls do what
  -- they do in one.
  pub on_data-append :
      (s t : Bytes) (b : Bbs C) → on_data pf (s ++ t) b ≡ on_data pf t (on_data pf s b)
  unfolding on_data
  on_data-append s t b = elim (Bool-cases (not b.connected)) [
    | inl off ↦ rw (off, on_data) (rw (off, on_data) refl)
    | inr on ↦
        (let still : (not (on_bytes pf s b).connected) ≡ false =
            ap not (on_bytes-connected pf s b) ∙ on in
          rw (on, on_data) (rw (still, on_data) (on_bytes-append s t b)))
  ]

  -- A byte of a line: no CR, no LF, and not the one that ends a body.
  abbrev IsText : ℕ → Type 0
  IsText c = (c ≢ b'\r') × (c ≢ b'\n') × (c ≢ 0x1A)

  on_byte-text : (c : ℕ) (b : Bbs C) → IsText c → on_byte pf c b ≡ on_text pf c b
  unfolding on_byte on_line_byte
  on_byte-text c b (a, l, e) = ground arith

  on_byte-cr :
      (b : Bbs C)
      → on_byte pf b'\r' b ≡ record (process_input_line pf b) { suppress_lf_after_cr = true }
  unfolding on_byte on_line_byte
  on_byte-cr b = ground arith

  on_byte-lf : (b : Bbs C) → on_byte pf b'\n' b ≡ on_lf pf b
  unfolding on_byte on_line_byte
  on_byte-lf b = ground arith

  step :
      (c : ℕ) (d : Bytes) (b : Bbs C)
      → b.stuck ≡ false
      → on_bytes pf (c ∷ d) b ≡ on_bytes pf d (on_byte pf c b)
  unfolding on_bytes
  step c d b going = rw going refl

  -- The mark of a CR does not outlast a byte of text.
  on_text-mark :
      (c : ℕ) (b : Bbs C) (mark : Bool)
      → on_text pf c (record b { suppress_lf_after_cr = mark }) ≡ on_text pf c b
  unfolding on_text
  on_text-mark c b mark = refl

  -- The line ends, and text follows.
  line_then_text :
      (c x : ℕ) (d : Bytes) (b : Bbs C) (mark : Bool)
      → IsText x
      → b.stuck ≡ false
      → (process_input_line pf b).stuck ≡ false
      → on_byte pf c b ≡ record (process_input_line pf b) { suppress_lf_after_cr = mark }
      → on_bytes pf (c ∷ x ∷ d) b ≡ on_bytes pf d (on_text pf x (process_input_line pf b))
  line_then_text c x d b mark text going still ends =
      let b' : Bbs C = record (process_input_line pf b) { suppress_lf_after_cr = mark } in
      step c (x ∷ d) b going
      ∙ ap (λ r. on_bytes pf (x ∷ d) r) ends
      ∙ step x d b' still
      ∙ ap (λ r. on_bytes pf d r)
          (on_byte-text x b' text ∙ on_text-mark x (process_input_line pf b) mark)

  cr_lf :
      (d : Bytes) (b : Bbs C)
      → b.stuck ≡ false
      → (process_input_line pf b).stuck ≡ false
      → on_bytes pf (b'\r' ∷ b'\n' ∷ d) b
        ≡ on_bytes pf d (record (process_input_line pf b) { suppress_lf_after_cr = false })
  unfolding on_lf
  cr_lf d b going still =
      let b' : Bbs C = record (process_input_line pf b) { suppress_lf_after_cr = true } in
      step b'\r' (b'\n' ∷ d) b going
      ∙ ap (λ r. on_bytes pf (b'\n' ∷ d) r) (on_byte-cr b)
      ∙ step b'\n' d b' still
      ∙ ap (λ r. on_bytes pf d r) (on_byte-lf b')

  -- CR, LF and CR LF end a line alike: with no CR just before, and where neither the session nor
  -- its line hangs in the search for a challenge, the session is the same, whichever of the three
  -- ended the line, once a byte of text follows.
  pub line_endings :
      (x : ℕ) (d : Bytes) (b : Bbs C)
      → IsText x
      → b.suppress_lf_after_cr ≡ false
      → b.stuck ≡ false
      → (process_input_line pf b).stuck ≡ false
      → (on_bytes pf (b'\r' ∷ b'\n' ∷ x ∷ d) b ≡ on_bytes pf (b'\r' ∷ x ∷ d) b)
        × (on_bytes pf (b'\n' ∷ x ∷ d) b ≡ on_bytes pf (b'\r' ∷ x ∷ d) b)
  unfolding on_lf
  line_endings x d b text fresh going still =
      let p = process_input_line pf b in
      let by_cr = line_then_text b'\r' x d b true text going still (on_byte-cr b) in
      let after =
        step x d (record p { suppress_lf_after_cr = false }) still
        ∙ ap (λ r. on_bytes pf d r)
            (on_byte-text x (record p { suppress_lf_after_cr = false }) text
              ∙ on_text-mark x p false) in
      let lf : on_lf pf b ≡ p = rw fresh refl in
      let by_lf =
        step b'\n' (x ∷ d) b going
        ∙ ap (λ r. on_bytes pf (x ∷ d) r) (on_byte-lf b ∙ lf)
        ∙ step x d p still
        ∙ ap (λ r. on_bytes pf d r) (on_byte-text x p text) in
      (cr_lf (x ∷ d) b going still ∙ after ∙ sym by_cr, by_lf ∙ sym by_cr)
