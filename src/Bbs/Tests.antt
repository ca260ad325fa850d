-- ===== src/Bbs/Tests.antt =====
-- Runs of the session, and its theorems at concrete inputs.
use esp_tnc.Prelude.{
  ℕ, ◌&&◌, ◌<◌, ◌≡◌, ◌↔◌, refl, true, false, none, some, List, [], ◌∷◌, ◌++◌, Bytes, codes, map,
  arith, ◌==◌, if◌then◌else◌, ◌||◌, c_str,
}
use esp_tnc.Esp.{esp_ok, nvs_not_found, is_ok}
use esp_tnc.Files.{Files, Io}
use esp_tnc.Auth.{configure, configured, secret_is_valid, all_printable}
use esp_tnc.Storage.{find}
use esp_tnc.Storage.Index.{Message, Storage}
use esp_tnc.Heard.{zeroed}
use esp_tnc.Bbs.{BbsConfig, init, blank, set_texts, open_nvs}
use esp_tnc.Bbs.Outside.{Platform}
use esp_tnc.Bbs.Callsign.{
  upper, full_bytes, normalize_full_callsign, base_callsign, is_valid_callsign,
}
use esp_tnc.Bbs.Grammar.{IsCallsign, is_valid_callsign_iff}
use esp_tnc.Bbs.Sending.{send_attempts, send_bytes, send_chunks, send_buffered}
use esp_tnc.Bbs.Delivery.{joined, AllFit, Queues, Delivers, Sent, send_bytes-Sent}
use esp_tnc.Bbs.Buffered.{send_buffered-frames}
use esp_tnc.Bbs.State.{command, Bbs}
use esp_tnc.Bbs.Messages.{
  list_line, cmd_kill, count_messages, get_last_read, has_unread_messages, list_messages,
  is_not_found,
}
use esp_tnc.Bbs.Scanning.{scan_command}
use esp_tnc.Bbs.Commands.{process_command}
use esp_tnc.Bbs.Lines.{process_input_line, on_bytes, on_data}
use esp_tnc.Bbs.Valid.{IsValid}
use esp_tnc.Bbs.Events.{connected_to, received, on_events, on_events-safe}
use esp_tnc.Bbs.Access.{is_own, find-cmd_kill, has_unread_messages_iff}
use esp_tnc.Bbs.Stream.{on_data-append, line_endings}
use esp_tnc.Bbs.Listing.{visible, newest, list_header, list_messages_lem}

-- A file system where every call works.
abbrev works : Io
works = record {
  reads = λ p fs. true;
  writes = λ p fs. true;
  room = λ p fs. 100000;
  closes = λ p fs. none;
  unlinks = λ p fs. true;
  renames = λ p q fs. true;
}

-- A link that takes every frame of up to four bytes, and keeps them in order.
abbrev radio : Platform (List Bytes)
radio = record {
  max_info = 4;
  send_data = λ p c. (esp_ok, c ++ (p ∷ []));
  delay = λ c. c;
  shutdown = λ c. c;
  now_ms = λ c. 1000;
  timer_us = λ c. 5000000;
  log_ms = λ c. 1000;
  random = λ c. (0 ∷ 1 ∷ 2 ∷ 3 ∷ [], c);
  nvs_open = λ n c. (esp_ok, c);
  nvs_close = λ c. c;
  nvs_get_u32 = λ k c. (nvs_not_found, 0);
  nvs_set_u32 = λ k v c. (esp_ok, c);
  nvs_commit = λ c. (esp_ok, c);
  cfg_is_initialized = λ c. true;
  cfg_set_output = λ c. c;
  cfg_handle_command = λ l c. (true, c);
  set_rx_tap = λ c. c;
  clear_rx_tap = λ c. c;
  uart_write_raw = λ p c. (esp_ok, c);
  littlefs_info = λ c. (esp_ok, 1000, 10);
  io = works;
}

abbrev radio-Queues : Queues radio
radio-Queues = record {
  sent = λ c. c;
  accepted = λ p c ok. refl;
  refused = λ p c no. ground arith;
  waited = λ c. refl;
}

radio-Delivers : Delivers radio radio-Queues
unfolding send_attempts
radio-Delivers p c = refl

send_bytes-Sent_example :
    (s : Sent radio radio-Queues
      (codes "hello world")
      []
      (send_bytes radio (codes "hello world") []))
    × (Delivers radio radio-Queues → s.rest ≡ [])
send_bytes-Sent_example = send_bytes-Sent radio radio-Queues (omega arith) (codes "hello world") []

hello : send_bytes radio (codes "hello world") [] ≡ codes "hell" ∷ codes "o wo" ∷ codes "rld" ∷ []
unfolding send_bytes send_chunks send_attempts
hello = refl

send_buffered-frames_example :
    (fs : List Bytes) × (send_buffered radio (codes "ab" ∷ codes "cdefg" ∷ []) [] ≡ [] ++ fs)
    × (joined fs ≡ codes "abcdefg")
    × AllFit 4 fs
send_buffered-frames_example =
    send_buffered-frames radio radio-Queues (omega arith) radio-Delivers []
      (codes "ab" ∷ codes "cdefg" ∷ [])

is_valid_callsign_iff_example :
    (is_valid_callsign (codes "n7get-5") ≡ true) ↔ IsCallsign (base_callsign 7 (codes "n7get-5"))
is_valid_callsign_iff_example = is_valid_callsign_iff (codes "n7get-5")

abbrev message : ℕ → Message
message id = record {
  id = id;
  from = codes "N7GET";
  to = codes "ALL";
  subject = codes "Hi";
  size = 3;
  timestamp = 10;
  flags = 2;
}

abbrev store : Storage
store = record {
  mounted = true;
  max_messages = 100;
  next_id = 9;
  records = message 7 ∷ message 4 ∷ [];
  partition_label = codes "bbs_data";
}

store-IsValid : esp_tnc.Storage.Valid.IsValid store
store-IsValid = omega arith

abbrev no_files : Files
no_files p = none

abbrev cfg : BbsConfig
cfg = record {
  bbs_callsign = some (codes "N0TST-2");
  greeting_text = none;
  prompt_text = none;
  config_prompt_text = none;
  terminal_prompt_text = none;
  sysop_name = none;
  version_text = none;
  nvs_namespace = none;
  sysop_auth = record {
    secret = some (codes "correct-horse-battery");
    challenge_timeout_ms = 0;
    session_timeout_ms = 0;
    lockout_ms = 0;
    max_attempts = 0;
    secret_min_len = 0;
    secret_max_len = 0;
  };
  storage = store;
  heard = zeroed;
  files = no_files;
  has_uart_phy = false;
  uart_is_terminal_mode = false;
}

-- After `bbs_init`, and with N7GET on the link.
abbrev ready : Bbs (List Bytes)
ready = record {
  initialized = true;
  connected = false;
  is_sysop = false;
  input_mode = command;
  storage = store;
  heard = zeroed;
  bbs_callsign = codes "N0TST-2";
  remote_callsign = [];
  greeting_text = codes "Welcome to ESP-TNC BBS";
  prompt_text = codes "BBS READY>";
  config_prompt_text = codes "CONFIG READY>";
  terminal_prompt_text = codes "TERM READY>";
  sysop_name = codes "SYSOP";
  version_text = codes "ESP-TNC BBS 0.1";
  nvs_namespace = codes "bbs";
  line_buf = [];
  suppress_lf_after_cr = false;
  pending_to = [];
  pending_flags = 0;
  pending_subject = [];
  pending_body = [];
  sysop_auth = configured cfg.sysop_auth;
  has_nvs = true;
  has_uart_phy = false;
  uart_is_terminal_mode = false;
  files = no_files;
  outside = [];
  stuck = false;
}

abbrev user : Bbs (List Bytes)
user = record ready { connected = true; remote_callsign = codes "N7GET" }

starts : init radio cfg [] ≡ (esp_ok, ready)
unfolding init blank set_texts open_nvs configure secret_is_valid all_printable configured
    normalize_full_callsign upper full_bytes
starts = refl

on_events-safe_example :
    IsValid
      (on_events radio (connected_to (codes "N7GET-5") ∷ received (codes "SYSOP\r") ∷ []) ready)
on_events-safe_example =
    on_events-safe radio cfg [] ready
      (connected_to (codes "N7GET-5") ∷ received (codes "SYSOP\r") ∷ []) (omega arith) starts

find-cmd_kill_example :
    find (cmd_kill radio 7 user).storage 4
    ≡ (if is_own user 7 && (7 == 4) then none else find user.storage 4)
find-cmd_kill_example = find-cmd_kill radio 7 4 user store-IsValid

unset : (is_ok (get_last_read radio user).0 || is_not_found (get_last_read radio user).0) ≡ true
unfolding get_last_read
unset = refl

has_unread_messages_iff_example :
    (has_unread_messages radio user ≡ true)
    ↔ (0 < (count_messages user (get_last_read radio user).1 user.storage.records (0, 0)).1)
has_unread_messages_iff_example = has_unread_messages_iff radio user refl refl unset

list_messages_lem_example : list_messages radio 1 false user ≡ record user {
  outside =
      send_buffered radio
        (list_header ∷ map list_line (visible false user (newest 1 user.storage.records)))
        [];
}
list_messages_lem_example = list_messages_lem radio 1 false user (omega arith)

on_data-append_example :
    on_data radio (codes "H\rI\r") user
    ≡ on_data radio (codes "I\r") (on_data radio (codes "H\r") user)
on_data-append_example = on_data-append radio (codes "H\r") (codes "I\r") user

-- An empty line gets the prompt.
goes_on : (process_input_line radio user).stuck ≡ false
unfolding process_input_line process_command scan_command c_str
goes_on = refl

line_endings_example :
    (on_bytes radio (b'\r' ∷ b'\n' ∷ b'I' ∷ []) user ≡ on_bytes radio (b'\r' ∷ b'I' ∷ []) user)
    × (on_bytes radio (b'\n' ∷ b'I' ∷ []) user ≡ on_bytes radio (b'\r' ∷ b'I' ∷ []) user)
line_endings_example =
    line_endings radio b'I' [] user (omega arith, omega arith, omega arith) refl refl goes_on
