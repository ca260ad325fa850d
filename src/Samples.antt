-- ===== src/Samples.antt =====
-- A file system, a link, pins and boards at which the tests run the program.
use esp_tnc.Prelude.{ℕ, ◌+◌, ◌%◌, suc, true, false, none, [], ◌∷◌, codes}
use esp_tnc.Auth.{configured}
use esp_tnc.Heard.{zeroed}
use esp_tnc.Bbs.State.{Bbs, command}
use esp_tnc.Esp.{esp_ok, nvs_not_found}
use esp_tnc.Files.{Io}
use esp_tnc.Bbs.Outside.{Platform}
use esp_tnc.Leds.{Gpio}
use esp_tnc.TestBbs.Link.{Link, timed_out}
use esp_tnc.TestBbs.Context.{Context}

abbrev pub io : Io
io = record {
  reads = λ p fs. true;
  writes = λ p fs. true;
  room = λ p fs. 100000;
  closes = λ p fs. none;
  unlinks = λ p fs. true;
  renames = λ p q fs. true;
}

-- A link whose state is the number of frames sent.
abbrev pub link : Platform ℕ
link = record {
  max_info = 128;
  send_data = λ p c. (esp_ok, suc c);
  delay = λ c. c;
  shutdown = λ c. c;
  now_ms = λ c. 1000;
  timer_us = λ c. 5000000;
  log_ms = λ c. 1000;
  random = λ c. (0 ∷ 1 ∷ 2 ∷ 3 ∷ [], c);
  nvs_open = λ n c. (esp_ok, c);
  nvs_close = λ c. c;
  nvs_get_u32 = λ k c. (nvs_not_found, 0);
  nvs_set_u32 = λ k v c. (esp_ok, c);
  nvs_commit = λ c. (esp_ok, c);
  cfg_is_initialized = λ c. true;
  cfg_set_output = λ c. c;
  cfg_handle_command = λ l c. (true, c);
  set_rx_tap = λ c. c;
  clear_rx_tap = λ c. c;
  uart_write_raw = λ p c. (esp_ok, c);
  littlefs_info = λ c. (esp_ok, 1000, 10);
  io = io;
}

abbrev pub gpio : Gpio
gpio = record { gpio_num_max = 49; is_output = λ n. true }

abbrev pub idle_bbs : Bbs ℕ
idle_bbs = record {
  initialized = true;
  connected = false;
  is_sysop = false;
  input_mode = command;
  storage = record {
    mounted = true;
    max_messages = 100;
    next_id = 1;
    records = [];
    partition_label = codes "bbs_data";
  };
  heard = zeroed;
  bbs_callsign = codes "N0TST-2";
  remote_callsign = [];
  greeting_text = codes "Hello";
  prompt_text = codes ">";
  config_prompt_text = codes "#";
  terminal_prompt_text = codes "$";
  sysop_name = codes "SYSOP";
  version_text = codes "1";
  nvs_namespace = codes "bbs";
  line_buf = [];
  suppress_lf_after_cr = false;
  pending_to = [];
  pending_flags = 0;
  pending_subject = [];
  pending_body = [];
  sysop_auth = configured (record {
    secret = none;
    challenge_timeout_ms = 0;
    session_timeout_ms = 0;
    lockout_ms = 0;
    max_attempts = 0;
    secret_min_len = 0;
    secret_max_len = 0;
  });
  has_nvs = true;
  has_uart_phy = false;
  uart_is_terminal_mode = false;
  files = λ p. none;
  outside = 0;
  stuck = false;
}

-- A board that always sends the same, and a counter that goes on with each delay.
abbrev pub board : Link ℕ
board = record {
  max_info = 256;
  phy_send = λ d c. (esp_ok, c);
  conn_send = λ d c. (esp_ok, suc c);
  delay = suc;
  incoming = λ ms c. (codes "Welcome\r*** You have 2 messages (1 new)\rBBS READY>!", timed_out);
  after_reads = λ ms n c. c + n;
  flush = λ c. c;
  clear_events = λ a b c. c;
  wait_connected = λ ms c. (true, suc c);
  wait_disconnected = λ ms c. (true, suc c);
  see_connected = λ ms c. (true, suc c);
  see_disconnected = λ ms c. (false, suc c);
  set_finished = λ c. c;
  shutdown = λ c. (esp_ok, c);
  connect = λ c. (esp_ok, c);
  conn_deinit = λ c. c;
  conn_init = λ a c. (esp_ok, c);
  has_tcp = true;
  tcp_deinit = λ c. c;
  tcp_init = λ c. (esp_ok, c);
  tcp_connected = λ c. (false, c);
  tcp_wait_ms = 8000;
  poll = suc;
  ticks = λ c. c % 4294967296;
  ticks_of = λ ms. ms;
  remove_port = λ c. (esp_ok, c);
  register_port = λ a c. (esp_ok, c);
}

abbrev pub context : Context ℕ
context = record {
  primary_local_addr = codes "N0TST-1";
  alt_local_addr = codes "N9ALT-1";
  tests_run = 0;
  tests_failed = 0;
  posted_message_id = 0;
  created_ids = [];
  run_subject_tag = [];
  capture = [];
  last = record { pass = false; name = []; detail = [] };
  log = [];
  stuck = false;
  link = 0;
}
