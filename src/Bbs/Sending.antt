-- ===== src/Bbs/Sending.antt =====
-- main/bbs.c: `bbs_send_bytes` and the transmit buffer.
use esp_tnc.Prelude.{
  ℕ, zero, suc, ◌-◌, true, false, List, [], ◌∷◌, ◌++◌, Bytes, ltb, leb, ◌==◌, if◌then◌else◌,
  is_empty, length, take, drop,
}
use esp_tnc.Esp.{EspErr, no_mem, is_ok, is_no_mem}
use esp_tnc.Bbs.Outside.{Platform}

-- BBS_SEND_RETRY_MAX
abbrev pub send_retry_max : ℕ
send_retry_max = 200

abbrev pub cr : Bytes
cr = b'\r' ∷ []

module _ {C : Type 0} (pf : Platform C) where
  -- The loop over `attempts`, with so many left: only a full window is tried again, after a delay.
  unfoldable pub send_attempts : ℕ → Bytes → C → EspErr × C
  send_attempts zero p c = (no_mem, c)
  send_attempts (suc left) p c =
      let (err, c') = pf.send_data p c in
      elim (is_no_mem err) [ true ↦ send_attempts left p (pf.delay c') | false ↦ (err, c') ]

  -- The loop over the chunks: the first that cannot be sent ends it. Each takes a byte or more, as
  -- AX25_MAX_INFO_LEN is not 0, so the length is fuel enough.
  unfoldable pub send_chunks : ℕ → Bytes → C → C
  send_chunks zero d c = c
  send_chunks (suc fuel) [] c = c
  send_chunks (suc fuel) (x ∷ d) c =
      let chunk = if ltb pf.max_info (length (x ∷ d)) then pf.max_info else length (x ∷ d) in
      let (err, c') = send_attempts send_retry_max (take chunk (x ∷ d)) c in
      elim (is_ok err) [ true ↦ send_chunks fuel (drop chunk (x ∷ d)) c' | false ↦ c' ]

  -- With a connection; bbs_send_text is this on a C string.
  unfoldable pub send_bytes : Bytes → C → C
  unfolding send_attempts send_chunks
  send_bytes d c = send_chunks (length d) d c

  -- `bbs_txbuf_t`: the bytes in `buf`, and the outside they are sent to.
  abbrev pub Tx : Type 0
  Tx = Bytes × C

  unfoldable pub tx_flush : Tx → Tx
  tx_flush (buf, c) = if is_empty buf then (buf, c) else ([], send_bytes buf c)

  -- if (tx->len >= limit) bbs_txbuf_flush(tx);
  unfoldable pub tx_flush_full : Tx → Tx
  tx_flush_full (buf, c) = if leb pf.max_info (length buf) then tx_flush (buf, c) else (buf, c)

  -- The loop of `bbs_txbuf_append`; each round takes a byte or more.
  unfoldable pub tx_append_loop : ℕ → Bytes → Tx → Tx
  tx_append_loop zero d tx = tx
  tx_append_loop (suc fuel) [] tx = tx
  tx_append_loop (suc fuel) (x ∷ d) tx =
      let (buf, c) = tx_flush_full tx in
      let room = pf.max_info - length buf in
      elim (room == 0) [
        | true ↦ (buf, c)
        | false ↦
            (let chunk = if ltb room (length (x ∷ d)) then room else length (x ∷ d) in
              tx_append_loop fuel (drop chunk (x ∷ d))
                (tx_flush_full (buf ++ take chunk (x ∷ d), c)))
      ]

  unfoldable pub tx_append : Bytes → Tx → Tx
  unfolding tx_append_loop
  tx_append d tx = tx_append_loop (length d) d tx

  -- A run of `bbs_txbuf_append_text`.
  unfoldable pub tx_append_all : List Bytes → Tx → Tx
  tx_append_all [] tx = tx
  tx_append_all (t ∷ ts) tx = tx_append_all ts (tx_append t tx)

  -- bbs_txbuf_init, the texts, bbs_txbuf_flush.
  unfoldable pub send_buffered : List Bytes → C → C
  unfolding tx_append_all tx_flush
  send_buffered ts c = (tx_flush (tx_append_all ts ([], c))).1
