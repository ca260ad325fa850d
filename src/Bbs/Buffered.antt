-- ===== src/Bbs/Buffered.antt =====
-- main/bbs.c: the transmit buffer loses nothing and keeps the order.
use esp_tnc.Prelude.{
  ℕ, zero, suc, ◌-◌, ◌≤◌, ◌<◌, ◌≡◌, refl, ◌∙◌, sym, ap, false, List, [], ◌∷◌, ◌++◌, Bytes, ltb, leb,
  ◌==◌, if◌then◌else◌, length, take, drop, append-nil, append_assoc, take-append-drop, length-drop,
  arith, inl, inr, Bool-cases,
}
use esp_tnc.Bbs.Outside.{Platform}
use esp_tnc.Bbs.Sending.{
  Tx, tx_flush, tx_flush_full, tx_append_loop, tx_append, tx_append_all, send_buffered,
}
use esp_tnc.Bbs.Delivery.{
  joined, joined-append, AllFit, AllFit-append, Queues, Delivers, send_bytes-Sent,
}

module _ {C : Type 0} (pf : Platform C) (q : Queues pf) (pos : 0 < pf.max_info)
    (del : Delivers pf q) (c₀ : C) where
  -- The bytes `out` have gone through the buffer since `c₀`: some are queued, the others wait.
  pub record Carries (out : Bytes) (tx : Tx pf) : Type 0 where
    pub frames : List Bytes
    pub queued : q.sent tx.1 ≡ q.sent c₀ ++ frames
    pub whole : joined frames ++ tx.0 ≡ out
    pub fit : AllFit pf.max_info frames

  tx_flush-Carries :
      (out : Bytes) (tx : Tx pf)
      → Carries out tx
      → Carries out (tx_flush pf tx) × ((tx_flush pf tx).0 ≡ [])
  unfolding tx_flush
  tx_flush-Carries out ([], c) k = (k, refl)
  tx_flush-Carries out (x ∷ buf, c) k =
      let (s, all) = send_bytes-Sent pf q pos (x ∷ buf) c in
      let gone : joined s.frames ≡ x ∷ buf =
        sym (append-nil (joined s.frames))
        ∙ ap (λ r. joined s.frames ++ r) (sym (all del))
        ∙ s.prefix in
      (
        record {
          frames = k.frames ++ s.frames;
          queued =
              s.queued
              ∙ ap (λ l. l ++ s.frames) k.queued
              ∙ append_assoc (q.sent c₀) k.frames s.frames;
          whole =
              append-nil (joined (k.frames ++ s.frames))
              ∙ joined-append k.frames s.frames
              ∙ ap (λ l. joined k.frames ++ l) gone
              ∙ k.whole;
          fit = AllFit-append pf.max_info k.frames s.frames k.fit s.fit;
        },
        refl,
      )

  tx_flush_full-Carries :
      (out : Bytes) (tx : Tx pf)
      → Carries out tx
      → Carries out (tx_flush_full pf tx) × (length (tx_flush_full pf tx).0 < pf.max_info)
  unfolding tx_flush_full
  tx_flush_full-Carries out tx k = elim (Bool-cases (leb pf.max_info (length tx.0))) [
    | inl full ↦
        (let (k', empty) = tx_flush-Carries out tx k in rw (full, tx_flush_full) (k', rw empty pos))
    | inr short ↦ rw (short, tx_flush_full) (k, ground arith)
  ]

  take_in :
      (n : ℕ) (d out : Bytes) (tx : Tx pf)
      → Carries out tx
      → Carries (out ++ take n d) (tx.0 ++ take n d, tx.1)
  take_in n d out tx k = record {
    frames = k.frames;
    queued = k.queued;
    whole = sym (append_assoc (joined k.frames) tx.0 (take n d)) ∙ ap (λ l. l ++ take n d) k.whole;
    fit = k.fit;
  }

  tx_append_loop-Carries :
      (fuel : ℕ) (d out : Bytes) (tx : Tx pf)
      → length d ≤ fuel
      → Carries out tx
      → Carries (out ++ d) (tx_append_loop pf fuel d tx)
  unfolding tx_append_loop
  tx_append_loop-Carries zero [] out tx le k = rw (append-nil out) k
  tx_append_loop-Carries zero (x ∷ d) out tx le k = absurd (omega arith)
  tx_append_loop-Carries (suc fuel) [] out tx le k = rw (append-nil out) k
  tx_append_loop-Carries (suc fuel) (x ∷ d) out tx le k =
      let (k', short) = tx_flush_full-Carries out tx k in
      let tx' = tx_flush_full pf tx in
      let room = pf.max_info - length tx'.0 in
      let n = if ltb room (length (x ∷ d)) then room else length (x ∷ d) in
      let some_room : (room == 0) ≡ false = ground arith in
      let k'' =
        tx_flush_full-Carries (out ++ take n (x ∷ d)) (tx'.0 ++ take n (x ∷ d), tx'.1)
          (take_in n (x ∷ d) out tx' k') in
      let left : length (drop n (x ∷ d)) ≤ fuel = rw (length-drop n (x ∷ d)) (ground arith) in
      rw (some_room, tx_append_loop)
        (rw
          (
            sym (ap (λ l. out ++ l) (take-append-drop n (x ∷ d))),
            sym (append_assoc out (take n (x ∷ d)) (drop n (x ∷ d))),
          )
          (tx_append_loop-Carries fuel (drop n (x ∷ d)) (out ++ take n (x ∷ d)) _ left k''.0))

  tx_append_all-Carries :
      (ts : List Bytes) (out : Bytes) (tx : Tx pf)
      → Carries out tx
      → Carries (out ++ joined ts) (tx_append_all pf ts tx)
  unfolding tx_append_all tx_append
  tx_append_all-Carries [] out tx k = rw (append-nil out) k
  tx_append_all-Carries (t ∷ ts) out tx k = rw (sym (append_assoc out t (joined ts))) (
      tx_append_all-Carries ts (out ++ t) (tx_append pf t tx)
        (tx_append_loop-Carries (length t) t out tx (omega arith) k))

  -- Over a link that delivers, which takes frames of one byte or more and queues those it accepts,
  -- the texts of a reply leave in full and in order, in frames that are not empty and no longer
  -- than the link allows, whatever the texts' sizes.
  pub send_buffered-frames :
      (ts : List Bytes)
      → (fs : List Bytes) × (q.sent (send_buffered pf ts c₀) ≡ q.sent c₀ ++ fs)
        × (joined fs ≡ joined ts)
        × AllFit pf.max_info fs
  unfolding send_buffered
  send_buffered-frames ts =
      let start : Carries [] ([], c₀) = record {
        frames = [];
        queued = sym (append-nil (q.sent c₀));
        whole = refl;
        fit = tt;
      } in
      let tx = tx_append_all pf ts ([], c₀) in
      let (k, empty) =
        tx_flush-Carries (joined ts) tx (tx_append_all-Carries ts [] ([], c₀) start) in
      (
        k.frames,
        k.queued,
        sym (append-nil (joined k.frames)) ∙ ap (λ l. joined k.frames ++ l) (sym empty) ∙ k.whole,
        k.fit,
      )
