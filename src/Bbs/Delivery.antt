-- ===== src/Bbs/Delivery.antt =====
-- main/bbs.c: what `bbs_send_bytes` hands to the connection.
use esp_tnc.Prelude.{
  ℕ, zero, suc, ◌≤◌, ◌<◌, ◌≡◌, refl, ◌∙◌, sym, ap, true, false, List, [], ◌∷◌, ◌++◌, Bytes, ltb,
  if◌then◌else◌, length, take, drop, append-nil, append_assoc, take-append-drop, length-take,
  length-drop, arith, inl, inr, ◌⊎◌, Bool-cases,
}
use esp_tnc.Esp.{EspErr, is_ok, is_no_mem, is_ok-no_mem}
use esp_tnc.Bbs.Outside.{Platform}
use esp_tnc.Bbs.Sending.{send_retry_max, send_attempts, send_chunks, send_bytes}

abbrev pub joined : List Bytes → Bytes
joined [] = []
joined (f ∷ fs) = f ++ joined fs

pub joined-append : (fs gs : List Bytes) → joined (fs ++ gs) ≡ joined fs ++ joined gs
joined-append [] gs = refl
joined-append (f ∷ fs) gs =
    ap (λ l. f ++ l) (joined-append fs gs) ∙ sym (append_assoc f (joined fs) (joined gs))

-- Frames that the connection takes: not empty, and no longer than it allows.
abbrev pub AllFit : ℕ → List Bytes → Type 0
AllFit n [] = Unit
AllFit n (f ∷ fs) = (0 < length f) × (length f ≤ n) × AllFit n fs

pub AllFit-append : (n : ℕ) (fs gs : List Bytes) → AllFit n fs → AllFit n gs → AllFit n (fs ++ gs)
AllFit-append n [] gs a b = b
AllFit-append n (f ∷ fs) gs a b = (a.0, a.1, AllFit-append n fs gs a.2 b)

-- What the code relies on in ax25_conn_send_data: a frame accepted with ESP_OK is queued once,
-- behind the others, and one that is refused is not queued; waiting queues nothing.
pub record Queues {C : Type 0} (pf : Platform C) : Type 0 where
  pub sent : C → List Bytes
  pub accepted :
      (p : Bytes) (c : C)
      → is_ok (pf.send_data p c).0 ≡ true
      → sent (pf.send_data p c).1 ≡ sent c ++ (p ∷ [])
  pub refused :
      (p : Bytes) (c : C) → is_ok (pf.send_data p c).0 ≡ false → sent (pf.send_data p c).1 ≡ sent c
  pub waited : (c : C) → sent (pf.delay c) ≡ sent c

module _ {C : Type 0} (pf : Platform C) (q : Queues pf) where
  -- What one frame's attempts came to.
  abbrev Attempted : Bytes → C → EspErr × C → Type 0
  Attempted p c r =
      ((is_ok r.0 ≡ true) × (q.sent r.1 ≡ q.sent c ++ (p ∷ [])))
      ⊎ ((is_ok r.0 ≡ false) × (q.sent r.1 ≡ q.sent c))

  send_attempts-Attempted :
      (left : ℕ) (p : Bytes) (c : C) → Attempted p c (send_attempts pf left p c)
  unfolding send_attempts
  send_attempts-Attempted zero p c = inr (refl, refl)
  send_attempts-Attempted (suc left) p c = elim (Bool-cases (is_no_mem (pf.send_data p c).0)) [
    | inl full ↦
        (let same : q.sent (pf.delay (pf.send_data p c).1) ≡ q.sent c =
            q.waited (pf.send_data p c).1
            ∙ q.refused p c (is_ok-no_mem (pf.send_data p c).0 full) in
          rw (full, send_attempts)
            (elim (send_attempts-Attempted left p (pf.delay (pf.send_data p c).1)) [
              | inl (ok, s) ↦ inl (ok, s ∙ ap (λ l. l ++ (p ∷ [])) same)
              | inr (err, s) ↦ inr (err, s ∙ same)
            ]))
    | inr decided ↦
        rw (decided, send_attempts)
          (elim (Bool-cases (is_ok (pf.send_data p c).0)) [
            | inl ok ↦ inl (ok, q.accepted p c ok)
            | inr err ↦ inr (err, q.refused p c err)
          ])
  ]

  -- What a run of the chunk loop on the bytes `d` queued: whole frames, from the front of `d` on.
  pub record Sent (d : Bytes) (c c' : C) : Type 0 where
    pub frames : List Bytes
    pub rest : Bytes
    pub queued : q.sent c' ≡ q.sent c ++ frames
    pub prefix : joined frames ++ rest ≡ d
    pub fit : AllFit pf.max_info frames

  -- A link that clears its window within the retries, and stays up.
  abbrev pub Delivers : Type 0
  Delivers = (p : Bytes) (c : C) → is_ok (send_attempts pf send_retry_max p c).0 ≡ true

  abbrev pub size : Bytes → ℕ
  size d = if ltb pf.max_info (length d) then pf.max_info else length d

  size-range :
      (x : ℕ) (d : Bytes)
      → 0 < pf.max_info
      → (0 < size (x ∷ d)) × (size (x ∷ d) ≤ pf.max_info) × (size (x ∷ d) ≤ length (x ∷ d))
  size-range x d pos = (ground arith, ground arith, ground arith)

  abbrev Run : ℕ → Bytes → C → Type 0
  Run fuel d c =
      (s : Sent d c (send_chunks pf fuel d c)) × (Delivers → length d ≤ fuel → s.rest ≡ [])

  abbrev nothing_sent : (d : Bytes) (c : C) → Sent d c c
  nothing_sent d c = record {
    frames = [];
    rest = d;
    queued = sym (append-nil (q.sent c));
    prefix = refl;
    fit = tt;
  }

  -- One chunk, then the others.
  abbrev chunk_sent :
      (n : ℕ) (d : Bytes) (c c' c'' : C)
      → q.sent c' ≡ q.sent c ++ (take n d ∷ [])
      → (0 < length (take n d)) × (length (take n d) ≤ pf.max_info)
      → Sent (drop n d) c' c''
      → Sent d c c''
  chunk_sent n d c c' c'' one fits s = record {
    frames = take n d ∷ s.frames;
    rest = s.rest;
    queued =
        s.queued ∙ ap (λ l. l ++ s.frames) one ∙ append_assoc (q.sent c) (take n d ∷ []) s.frames;
    prefix =
        append_assoc (take n d) (joined s.frames) s.rest
        ∙ ap (λ l. take n d ++ l) s.prefix
        ∙ take-append-drop n d;
    fit = (fits.0, fits.1, s.fit);
  }

  send_chunks-Sent : 0 < pf.max_info → (fuel : ℕ) (d : Bytes) (c : C) → Run fuel d c
  unfolding send_chunks
  send_chunks-Sent pos zero d c = (nothing_sent d c, λ del le. none_left d le)
    where
      none_left : (d : Bytes) → length d ≤ 0 → d ≡ []
      none_left [] le = refl
      none_left (x ∷ d) le = absurd (omega arith)
  send_chunks-Sent pos (suc fuel) [] c = (nothing_sent [] c, λ del le. refl)
  send_chunks-Sent pos (suc fuel) (x ∷ d) c =
      let n = size (x ∷ d) in
      let (low, high, within) = size-range x d pos in
      let fits : (0 < length (take n (x ∷ d))) × (length (take n (x ∷ d)) ≤ pf.max_info) =
        (omega (arith, length-take n (x ∷ d)), omega (arith, length-take n (x ∷ d))) in
      let tried = send_attempts pf send_retry_max (take n (x ∷ d)) c in
      elim (send_attempts-Attempted send_retry_max (take n (x ∷ d)) c) [
        | inl (ok, s) ↦
            (let (later, all) = send_chunks-Sent pos fuel (drop n (x ∷ d)) tried.1 in
              rw (ok, send_chunks)
                (
                  chunk_sent n (x ∷ d) c tried.1 _ s fits later,
                  λ del le. all del (omega (arith, length-drop n (x ∷ d))),
                ))
        | inr (err, s) ↦
            rw (err, send_chunks)
              (
                record {
                  frames = [];
                  rest = x ∷ d;
                  queued = s ∙ sym (append-nil (q.sent c));
                  prefix = refl;
                  fit = tt;
                },
                λ del le. absurd (cc (err, del (take n (x ∷ d)) c)),
              )
      ]

  -- On a link that takes frames of one byte or more and queues just those it accepts, whatever it
  -- refuses: what is queued is a front part of the bytes, in their order, in frames that fit; and
  -- all of them are queued over a link that delivers.
  pub send_bytes-Sent :
      0 < pf.max_info
      → (d : Bytes) (c : C) → (s : Sent d c (send_bytes pf d c)) × (Delivers → s.rest ≡ [])
  unfolding send_bytes
  send_bytes-Sent pos d c =
      let (s, all) = send_chunks-Sent pos (length d) d c in (s, λ del. all del (omega arith))
