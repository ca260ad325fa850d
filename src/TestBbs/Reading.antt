-- ===== src/TestBbs/Reading.antt =====
-- test_bbs/main/main.c: reading until a token comes.
use esp_tnc.Prelude.{
  ℕ, suc, ◌-◌, Bool, true, false, not, ◌&&◌, ◌||◌, Option, none, some, List, [], ◌∷◌, ◌++◌, Bytes,
  codes, str_eq, c_str, ltb, leb, ◌==◌, if◌then◌else◌, length, take, drop,
}
use esp_tnc.Esp.{EspErr, esp_ok, esp_fail, invalid_arg, timeout}
use esp_tnc.TestBbs.Link.{Ending, timed_out, failed, Link}

-- sizeof(window)
abbrev pub window_size : ℕ
window_size = 96

abbrev pub ending_error : Ending → EspErr
ending_error timed_out = timeout
ending_error failed = esp_fail

-- The window takes a byte; a full one of `max` bytes moves up.
unfoldable pub push_window : ℕ → Bytes → ℕ → Bytes
push_window max w b = if ltb (length w) max then w ++ (b ∷ []) else drop 1 w ++ (b ∷ [])

-- win_len >= token_len && memcmp(window + (win_len - token_len), token, token_len) == 0
unfoldable pub ends_with : Bytes → Bytes → Bool
ends_with t w = leb (length t) (length w) && str_eq (drop (length w - length t) w) t

-- The loop over the tokens.
unfoldable pub ends_with_any : List Bytes → Bytes → Bool
unfolding ends_with
ends_with_any [] w = false
ends_with_any (t ∷ ts) w = ends_with t w || ends_with_any ts w

-- The loop over the bytes: the status, and how many have been read.
unfoldable pub read_loop : (Bytes → Bool) → ℕ → Ending → Bytes → Bytes → EspErr × ℕ
unfolding push_window
read_loop found max e w [] = (ending_error e, 0)
read_loop found max e w (b ∷ bs) =
    let w' = push_window max w b in
    elim (found w') [
      | true ↦ (esp_ok, 1)
      | false ↦ (let (err, n) = read_loop found max e w' bs in (err, suc n))
    ]

unfoldable pub max_length : List Bytes → ℕ
max_length [] = 0
max_length (t ∷ ts) = let rest = max_length ts in if ltb rest (length t) then length t else rest

-- No token is empty, or too long for the window.
unfoldable pub are_tokens : List Bytes → Bool
are_tokens [] = true
are_tokens (t ∷ ts) = if length t == 0 || leb window_size (length t) then false else are_tokens ts

-- The capture, as a C string, that bytes leave in a buffer of so many.
abbrev pub captured : ℕ → Bytes → Bytes
captured capture_len d = c_str (take (capture_len - 1) d)

module _ {C : Type 0} (ln : Link C) where
  -- Status, capture and link. `none`: the buffer is not written.
  unfoldable pub read_with : (Bytes → Bool) → ℕ → ℕ → ℕ → C → EspErr × Option Bytes × C
  unfolding read_loop
  read_with found max timeout_ms capture_len c =
      let (bytes, e) = ln.incoming timeout_ms c in
      let (err, n) = read_loop found max e [] bytes in
      (err, some (captured capture_len (take n bytes)), ln.after_reads timeout_ms n c)

  unfoldable pub read_until_token : Bytes → ℕ → ℕ → C → EspErr × Option Bytes × C
  unfolding read_with
  read_until_token token timeout_ms capture_len c =
      if length token == 0 || leb window_size (length token)
      then (invalid_arg, none, c)
      else read_with (λ w. length w == length token && str_eq w token) (length token) timeout_ms
          capture_len c

  unfoldable pub read_until_any_token : List Bytes → ℕ → ℕ → C → EspErr × Option Bytes × C
  unfolding read_with are_tokens
  read_until_any_token tokens timeout_ms capture_len c =
      if length tokens == 0
      then (invalid_arg, none, c)
      else if not (are_tokens tokens)
      then (invalid_arg, none, c)
      else read_with (ends_with_any tokens) (max_length tokens) timeout_ms capture_len c

  abbrev pub prompt_tokens : List Bytes
  prompt_tokens = codes "BBS READY>" ∷ codes "BBS READY:" ∷ codes "BBS> " ∷ []

  abbrev pub config_prompt_tokens : List Bytes
  config_prompt_tokens = codes "CONFIG READY>" ∷ []

  unfoldable pub read_until_command_prompt : ℕ → ℕ → C → EspErr × Option Bytes × C
  unfolding read_until_any_token
  read_until_command_prompt timeout_ms capture_len c =
      read_until_any_token prompt_tokens timeout_ms capture_len c

  unfoldable pub read_until_config_prompt : ℕ → ℕ → C → EspErr × Option Bytes × C
  unfolding read_until_any_token
  read_until_config_prompt timeout_ms capture_len c =
      read_until_any_token config_prompt_tokens timeout_ms capture_len c
