-- ===== src/TestBbs/Waiting.antt =====
-- test_bbs/main/main.c: the wait for the TCP connection, on a tick counter that wraps round.
use esp_tnc.Prelude.{
  ℕ, zero, suc, ◌+◌, ◌%◌, ◌≤◌, ◌<◌, ◌≡◌, ◌≢◌, ◌⊎◌, Bool, true, false, Option, none, some, ltb, leb,
  add32, sub32, arith, inl, inr, Bool-cases, u32_mod, tests,
}
use esp_tnc.TestBbs.Link.{Link}

abbrev half : ℕ
half = 2147483648

module _ {C : Type 0} (ln : Link C) where
  -- The loop until the deadline; `none`: so many rounds were not enough.
  unfoldable pub wait_loop : ℕ → ℕ → C → Option Bool × C
  wait_loop zero deadline c = (none, c)
  wait_loop (suc fuel) deadline c = elim (ltb (sub32 deadline (ln.ticks c)) half) [
    | false ↦ (let (up, c') = ln.tcp_connected c in (some up, c'))
    | true ↦
        (let (up, c') = ln.tcp_connected c in
          elim up [ true ↦ (some true, c') | false ↦ wait_loop fuel deadline (ln.poll c') ])
  ]

  unfoldable pub wait_for_tcp_phy_connected : ℕ → C → Option Bool × C
  unfolding wait_loop
  wait_for_tcp_phy_connected timeout_ms c =
      let ticks = ln.ticks_of timeout_ms in wait_loop (ticks + 2) (add32 (ln.ticks c) ticks) c

  -- A look at the socket and the delay after it take a tick or more, and less than 2^31.
  abbrev pub Passes : Type 0
  Passes =
      (c : C)
      → (d : ℕ) × (1 ≤ d)
        × (d < half)
        × (ln.ticks (ln.poll (ln.tcp_connected c).1) ≡ (ln.ticks c + d) % u32_mod)

  -- One round later: closer to the deadline, or past it.
  closer :
      (deadline t d : ℕ)
      → t < u32_mod
      → deadline < u32_mod
      → 1 ≤ d
      → d < half
      → sub32 deadline t < half
      → (sub32 deadline ((t + d) % u32_mod) < sub32 deadline t)
        ⊎ (half ≤ sub32 deadline ((t + d) % u32_mod))
  closer deadline t d h k low high before = elim (Bool-cases (leb d (sub32 deadline t))) [
    | inl short ↦ inl (let near : d ≤ sub32 deadline t = omega tests in omega arith)
    | inr long ↦ inr (let past : sub32 deadline t < d = ground arith in omega arith)
  ]

  wait_loop_ends :
      Passes
      → (fuel deadline : ℕ) (c : C) → ln.ticks c < u32_mod
      → deadline < u32_mod
      → 0 < fuel
      → (sub32 deadline (ln.ticks c) < half → sub32 deadline (ln.ticks c) + 1 < fuel)
      → (wait_loop fuel deadline c).0 ≢ none
  unfolding wait_loop
  wait_loop_ends passes zero deadline c h k pos enough = absurd (omega arith)
  wait_loop_ends passes (suc fuel) deadline c h k pos enough =
      elim (Bool-cases (ltb (sub32 deadline (ln.ticks c)) half)) [
        | inr over ↦ rw (over, wait_loop) (λ e. cc)
        | inl more ↦ elim (Bool-cases (ln.tcp_connected c).0) [
          | inl up ↦ rw (more, wait_loop) (rw (up, wait_loop) (λ e. cc))
          | inr down ↦
              (let (d, low, high, after) = passes c in
                let now = ln.ticks c in
                let before : sub32 deadline now < half = omega tests in
                let enough' = enough before in
                rw (more, wait_loop)
                  (rw (down, wait_loop)
                    (wait_loop_ends passes fuel deadline (ln.poll (ln.tcp_connected c).1)
                      (omega (arith, after)) k (omega arith)
                      (rw after (
                        still (sub32 deadline now) fuel enough'
                          (closer deadline now d h k low high before))))))
        ]
      ]
    where
      still :
          {x : ℕ} (y fuel : ℕ) → y + 1 < suc fuel → (x < y) ⊎ (half ≤ x) → x < half → x + 1 < fuel
      still y fuel h (inl lt) k = omega arith
      still y fuel h (inr le) k = omega arith

  -- The wait for the TCP connection ends, with an answer, also where the tick counter wraps round:
  -- for a timeout of less than 2^31 ticks, and if every round takes a tick or more, and less than
  -- 2^31.
  pub wait_for_tcp_phy_connected_ends :
      Passes
      → (timeout_ms : ℕ) (c : C) → ln.ticks c < u32_mod
      → ln.ticks_of timeout_ms < half
      → (wait_for_tcp_phy_connected timeout_ms c).0 ≢ none
  unfolding wait_for_tcp_phy_connected
  wait_for_tcp_phy_connected_ends passes timeout_ms c h k =
      wait_loop_ends passes (ln.ticks_of timeout_ms + 2)
        (add32 (ln.ticks c) (ln.ticks_of timeout_ms)) c h (omega arith) (omega arith)
        (λ low. omega arith)
