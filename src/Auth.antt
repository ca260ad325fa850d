-- ===== src/Auth.antt =====
-- main/sysop_auth.c and main/sysop_auth.h: the SYSOP's challenge and response.
pub mod Challenge
pub mod Matching
pub mod Counting
pub mod Drawing
pub mod Ending
pub mod Session
pub mod Steps
pub mod Lockout
pub mod Modes
mod Tests
use esp_tnc.Prelude.{
  ℕ, zero, suc, ◌+◌, ◌*◌, ◌/◌, ◌%◌, ◌-◌, Bool, true, false, not, ◌&&◌, ◌||◌, Option, none, some,
  List, [], ◌∷◌, ◌++◌, Bytes, codes, is_empty, strlcpy, ltb, leb, ◌==◌, if◌then◌else◌, length,
  add32, sub32, decimal,
}
use esp_tnc.Esp.{EspErr, esp_ok, esp_fail, invalid_arg, invalid_state}
use Challenge.{Generated, refused, running, chosen, generate_challenge_indices}
use Matching.{verify_response}

-- `bbs_sysop_auth_mode_t`
pub data Mode : Type 0 where
  idle awaiting_response authenticated locked_out : Mode

-- `sysop_auth_state_t`
pub record State : Type 0 where
  pub mode : Mode
  pub secret : Bytes
  pub challenge_indices : List ℕ
  pub challenge_id_next : ℕ
  pub active_challenge_id : ℕ
  pub challenge_issued_ms : ℕ
  pub challenge_expires_ms : ℕ
  pub lockout_until_ms : ℕ
  pub last_activity_ms : ℕ
  pub challenge_timeout_ms : ℕ
  pub session_timeout_ms : ℕ
  pub lockout_ms : ℕ
  pub secret_min_len : ℕ
  pub secret_max_len : ℕ
  pub failed_attempts : ℕ
  pub max_attempts : ℕ
  pub deferred_config_entry : Bool
  pub deferred_console_entry : Bool

-- `sysop_auth_config_t`; `none` is a NULL secret.
pub record Config : Type 0 where
  pub secret : Option Bytes
  pub challenge_timeout_ms : ℕ
  pub session_timeout_ms : ℕ
  pub lockout_ms : ℕ
  pub max_attempts : ℕ
  pub secret_min_len : ℕ
  pub secret_max_len : ℕ

-- `sysop_auth_verify_result_t`
pub data Verdict : Type 0 where
  success failed lockout expired no_active : Verdict

abbrev pub no_indices : List ℕ
no_indices = 0 ∷ 0 ∷ 0 ∷ 0 ∷ []

abbrev pub is_awaiting_response : State → Bool
is_awaiting_response s = elim s.mode [ awaiting_response ↦ true | _ ↦ false ]

abbrev pub is_authenticated : State → Bool
is_authenticated s = elim s.mode [ authenticated ↦ true | _ ↦ false ]

abbrev is_locked : Mode → Bool
is_locked locked_out = true
is_locked _ = false

-- Printable ASCII with no space.
unfoldable pub all_printable : Bytes → Bool
all_printable [] = true
all_printable (c ∷ s) = if ltb c 0x21 || ltb 0x7e c then false else all_printable s

unfoldable pub secret_is_valid : State → Bytes → Bool
secret_is_valid s secret =
    if length secret == 0
    then true
    else if ltb (length secret) s.secret_min_len || ltb s.secret_max_len (length secret)
    then false
    else all_printable secret

unfoldable pub clear_challenge : State → State
clear_challenge s =
    let cleared : State = record s {
      active_challenge_id = 0;
      challenge_issued_ms = 0;
      challenge_expires_ms = 0;
      challenge_indices = no_indices;
    } in
    if is_awaiting_response s then record cleared { mode = idle } else cleared

-- A setting of 0 stands for the default.
abbrev or_default : ℕ → ℕ → ℕ
or_default v d = if v == 0 then d else v

-- The state that `sysop_auth_configure` sets up before it looks at the secret.
unfoldable pub configured : Config → State
configured cfg =
    let max_len = or_default cfg.secret_max_len 256 in
    record {
      mode = idle;
      secret = strlcpy 257 (elim cfg.secret [ none ↦ [] | some x ↦ x ]);
      challenge_indices = no_indices;
      challenge_id_next = 0;
      active_challenge_id = 0;
      challenge_issued_ms = 0;
      challenge_expires_ms = 0;
      lockout_until_ms = 0;
      last_activity_ms = 0;
      challenge_timeout_ms = or_default cfg.challenge_timeout_ms 300000;
      session_timeout_ms = or_default cfg.session_timeout_ms 600000;
      lockout_ms = or_default cfg.lockout_ms 900000;
      secret_min_len = or_default cfg.secret_min_len 16;
      secret_max_len = if ltb 256 max_len then 256 else max_len;
      failed_attempts = 0;
      max_attempts = or_default cfg.max_attempts 3;
      deferred_config_entry = false;
      deferred_console_entry = false;
    }

unfoldable pub configure : Config → EspErr × State
unfolding secret_is_valid
configure cfg =
    let s = configured cfg in
    if not (secret_is_valid s s.secret) then (invalid_arg, s) else (esp_ok, s)

-- The fields that `sysop_auth_reset_session` sets itself.
abbrev fresh_session : State → State
fresh_session s = record s {
  mode = idle;
  failed_attempts = 0;
  lockout_until_ms = 0;
  last_activity_ms = 0;
  deferred_config_entry = false;
  deferred_console_entry = false;
}

unfoldable pub reset_session : State → State
unfolding clear_challenge
reset_session s = clear_challenge (fresh_session s)

abbrev pub secret_is_empty : State → Bool
secret_is_empty s = is_empty s.secret

unfoldable pub is_locked_out : ℕ → State → Bool × State
is_locked_out now s =
    if not (is_locked s.mode)
    then (false, s)
    else if leb s.lockout_until_ms now
    then (false, record s { mode = idle; failed_attempts = 0; lockout_until_ms = 0 })
    else (true, s)

unfoldable pub bypass_authenticate : ℕ → State → State
bypass_authenticate now s = record s {
  failed_attempts = 0;
  mode = authenticated;
  last_activity_ms = now;
}

-- The sum is a uint32_t.
unfoldable pub lockout_minutes : State → ℕ
lockout_minutes s =
    if s.lockout_ms == 0
    then 1
    else let mins = add32 s.lockout_ms 59999 / 60000 in if mins == 0 then 1 else mins

unfoldable pub set_deferred_config : Bool → State → State
set_deferred_config pending s = record s { deferred_config_entry = pending }

unfoldable pub take_deferred_config : State → Bool × State
take_deferred_config s = (s.deferred_config_entry, record s { deferred_config_entry = false })

unfoldable pub set_deferred_console : Bool → State → State
set_deferred_console pending s = record s { deferred_console_entry = pending }

unfoldable pub take_deferred_console : State → Bool × State
take_deferred_console s = (s.deferred_console_entry, record s { deferred_console_entry = false })

unfoldable pub note_activity : ℕ → State → State
note_activity now s = if not (is_authenticated s) then s else record s { last_activity_ms = now }

unfoldable pub expire_authenticated_if_idle : ℕ → State → Bool × State
expire_authenticated_if_idle now s =
    if not (is_authenticated s)
    then (false, s)
    else if ltb s.session_timeout_ms (sub32 now s.last_activity_ms)
    then (true, record s { mode = idle; last_activity_ms = 0 })
    else (false, s)

-- The four numbers of the line, each after a space.
abbrev pub numbers : List ℕ → Bytes
numbers [] = []
numbers (i ∷ is) = codes " " ++ (decimal i ++ numbers is)

-- The status, the line for a buffer of `out_line_len` bytes, the challenge's id, the state.
-- `none` says that the random numbers `draws` were used up before four indices were found.
abbrev pub Issued : Type 0
Issued = EspErr × Bytes × ℕ × State

next_id : ℕ → ℕ
next_id id = if add32 id 1 == 0 then 1 else add32 id 1

-- The challenge with the indices found.
unfoldable pub start_challenge : ℕ → ℕ → List ℕ → State → Issued
unfolding next_id
start_challenge now out_line_len indices s =
    let id = next_id s.challenge_id_next in
    (
      esp_ok,
      strlcpy out_line_len (codes "CHAL" ++ (numbers indices ++ (b'\r' ∷ []))),
      id,
      record s {
        challenge_indices = indices;
        challenge_id_next = id;
        active_challenge_id = id;
        challenge_issued_ms = now;
        challenge_expires_ms = add32 now s.challenge_timeout_ms;
        mode = awaiting_response;
      },
    )

-- `running`: the loop has not ended with the random numbers at hand.
abbrev pub issue_with : ℕ → ℕ → State → Generated → Option Issued
issue_with now out_line_len s refused = some (esp_fail, [], 0, s)
issue_with now out_line_len s running = none
issue_with now out_line_len s (chosen indices) = some (start_challenge now out_line_len indices s)

unfoldable pub issue_challenge : List ℕ → ℕ → ℕ → State → Option Issued
issue_challenge draws now out_line_len s =
    if out_line_len == 0
    then some (invalid_arg, [], 0, s)
    else if ltb (length s.secret) 4
    then some (invalid_state, [], 0, s)
    else issue_with now out_line_len s (generate_challenge_indices (length s.secret) draws)

-- After the challenge is cleared.
unfoldable pub judge : Bool → ℕ → State → Verdict × State
judge good now s =
    let tries = (s.failed_attempts + 1) % 256 in
    if good
    then (success, record s { failed_attempts = 0; mode = authenticated; last_activity_ms = now })
    else if leb s.max_attempts tries
    then (
      lockout,
      record s {
        failed_attempts = tries;
        mode = locked_out;
        lockout_until_ms = add32 now s.lockout_ms;
      },
    )
    else (failed, record s { failed_attempts = tries; mode = idle })

unfoldable pub submit_response : Bytes → ℕ → State → Verdict × State
unfolding clear_challenge judge
submit_response response now s =
    if s.active_challenge_id == 0 || not (is_awaiting_response s)
    then (no_active, s)
    else if ltb s.challenge_expires_ms now
    then (expired, clear_challenge s)
    else judge (verify_response s.secret s.challenge_indices s.active_challenge_id response) now
        (clear_challenge s)
