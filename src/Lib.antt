-- ===== src/Lib.antt =====
-- Verification of ESP-TNC: the bulletin board of the firmware, from the bytes that a station sends
-- to the files on flash, its servers' pools of clients, and the program that tests a board.
--
-- The parts, and the files that model them:
--   * main/bbs_heard.c, the stations heard: Heard. `on_frame` is heard_on_frame, the callback of
--     the router; Heard.Store is heard.dat (bbs_heard_load, bbs_heard_persist).
--   * main/bbs_storage.c, the message store: Storage, with the names of its files in Storage.Paths
--     and index.dat in Storage.Index. `store_message`, `find`, `read_message`, `delete_message`,
--     `init`, `deinit` and `free_bytes` are the functions named bbs_storage_*.
--   * main/sysop_auth.c, the challenge and response: Auth, with sysop_generate_challenge_indices in
--     Auth.Challenge and sysop_verify_response in Auth.Matching. The other definitions are the
--     functions named sysop_auth_*.
--   * main/bbs.c, the session: Bbs (bbs_init, bbs_on_connect, bbs_on_disconnect), Bbs.Callsign,
--     Bbs.Sending (bbs_send_bytes and the transmit buffer), Bbs.Sysop (the login and the modes),
--     Bbs.Messages (list, read, kill, post, banner), Bbs.Scanning and Bbs.Commands
--     (process_command), Bbs.Lines (bbs_process_input_line and bbs_on_data). Bbs.Events is the
--     dispatch of bbs_worker_task in main/main.c.
--   * main/main.c, the worker: Worker, the callbacks conn_on_connect, conn_on_disconnect and
--     conn_on_data, the queue between them, bbs_worker_task and led_tick. The queue takes a number
--     of events that is a parameter; BBS_EVT_QUEUE_LEN makes it 16. Leds is the choice of the LEDs'
--     pins and the levels put on them (the functions named led_*).
--   * main/main.c, the clients: Kiss is the pool of the KISS clients' router ports
--     (kiss_on_connected and the other callbacks named kiss_*), Agwpe the pool of the AGWPE clients
--     with the queue and the task that clean up after them, Slots the search for a free slot, and
--     Uart the port of the KISS UART with its retries.
--   * main/main.c, the start: Boot is app_main from bbs_storage_init on (`boot`), with the choice
--     of the secret (`startup_secret`), and its loop of each second (`housekeeping`).
--   * test_bbs/main/main.c: TestBbs. Link is what the program calls, Sending its retries, Reading
--     the reads up to a token, Parsing what it reads out of the answers, Waiting the wait for the
--     TCP connection, Context the state app_ctx_t, Action the actions on it, Session the
--     reconnecting, the commands and the tracked messages, Config run_config_mode_tests, and
--     Posting, Rereading, Private and Script the parts of run_script and test_task.
--   * test_message/main/main.c: TestMessage. Bodies is the random bodies and their check, Entries the
--     messages beside the context that the program shares with test_bbs, Script its run_script and
--     test_task; what it copies from test_bbs is taken from TestBbs.
--   * Files is the file system below /bbsfs and Esp the error codes. Prelude holds the C strings,
--     decimal numbers, words and lists that the parts share.
--
-- The settings CONFIG_BBS_MAX_MESSAGES and CONFIG_BBS_MAX_BODY_LEN, which size the arrays, have the
-- defaults of main/Kconfig.projbuild, 100 messages and 4096 bytes.
--
-- How they interact: a session calls the store to list, read, kill and post, the heard list to show
-- it, and the authentication to log in; the store and the heard list write files. The state of each
-- is a record with the fields of the C struct. A C string is the list of its bytes, an array with a
-- count the list of its first entries, and a function that changes a struct returns the new one. A
-- session's record holds what its pointers lead to.
--
-- What lies outside the repository is a parameter: `Io` answers for each call of the file
-- system, and may refuse any of them, and an fclose that fails may lose what fwrite took;
-- `Platform` is the AX.25 connection, NVS, the clock, the random numbers, the configuration
-- module and the KISS UART, over an abstract state; `Mount` is the LittleFS mount. `Queues`
-- states what the code relies on in ax25_conn_send_data. The mutex of the heard list makes each
-- of its calls one step. `Router`, `AgwpeServer`, `UartPhy` and `Gpio` are the router, the
-- servers, the UART and the pins; `Link` is the test program's connection to the board. Scanf is
-- the part of sscanf that the test program uses. The library and the C functions of strings and
-- numbers are written out, the latter with 32-bit words (`% 2 ^ 32`), as on the ESP32.
--
-- Loops: those over arrays and texts are recursions on lists. The loops over file contents, over
-- chunks and over the transmit buffer run on the length of the bytes as fuel, as each round takes a
-- byte or more; the retry of a frame runs on the 200 attempts of BBS_SEND_RETRY_MAX. The search for
-- a challenge's indices draws random numbers until it has four; it is given the numbers as a list,
-- and says when they do not suffice. The loops over the slots of a pool run on its number of slots,
-- the reads on the bytes that come until the deadline, and the wait for the TCP connection on one
-- round for each tick of its timeout, and two more. A session whose search does not end is marked
-- `stuck`, and does nothing more.
--
-- Not modelled: NULL arguments, which no caller passes where a definition leaves them out; logs,
-- but for the results that the test program puts out; the bytes that a short read leaves in the
-- scratch buffer; the half of app_main before the message store, which starts Wi-Fi, the router,
-- the UART and the servers, and the allocation of the pools, which are glue over the ax25
-- components, ESP-IDF and FreeRTOS; of test_bbs the callbacks and app_main, which are such glue
-- too, also of test_message; and the program test_servers, which drives a board over TCP. The
-- mutex of a pool makes the search for a slot one step, and each callback runs as one step, but
-- for kiss_on_connected, of which the search for a slot is one and the rest another.
pub mod Prelude
pub mod Esp
pub mod Files
pub mod Heard
pub mod Storage
pub mod Auth
pub mod Bbs
pub mod Worker
pub mod Leds
pub mod Slots
pub mod Kiss
pub mod Agwpe
pub mod Uart
pub mod Boot
pub mod Samples
pub mod Scanf
pub mod TestBbs
pub mod TestMessage
