-- ===== src/TestBbs/Context.antt =====
-- test_bbs/main/main.c: what the test task works on.
use esp_tnc.Prelude.{
  ℕ, Bool, true, false, not, Option, none, some, List, [], ◌∷◌, ◌++◌, Bytes, strlcpy, ltb, ◌==◌,
  length, if◌then◌else◌, add32,
}
use esp_tnc.Esp.{EspErr, is_ok}
use esp_tnc.TestBbs.Action.{Action, modify}
use esp_tnc.TestBbs.Parsing.{is_among}

-- `test_result_t`
pub record TestResult : Type 0 where
  pub pass : Bool
  pub name : Bytes
  pub detail : Bytes

-- `app_ctx_t`; an address stands for its text, and `created_count` is the length of `created_ids`.
pub record Context (C : Type 0) : Type 0 where
  pub primary_local_addr : Bytes
  pub alt_local_addr : Bytes
  pub tests_run : ℕ
  pub tests_failed : ℕ
  pub posted_message_id : ℕ
  pub created_ids : List ℕ
  pub run_subject_tag : Bytes
  pub capture : Bytes
  pub last : TestResult
  pub log : List TestResult  -- the results that ESP_LOGI has put out
  pub stuck : Bool  -- a wait did not end
  pub link : C

-- The settings CONFIG_TEST_BBS_...
pub record Kconfig : Type 0 where
  pub step_timeout_ms : ℕ
  pub connect_timeout_ms : ℕ
  pub sysop_secret : Bytes
  pub remote_callsign : Bytes

-- sizeof(created_ids) / sizeof(created_ids[0])
abbrev pub max_created : ℕ
max_created = 16

unfoldable pub id_already_tracked : ℕ → List ℕ → Bool
unfolding is_among
id_already_tracked id ids = if id == 0 then true else is_among id ids

-- The created ids with one more.
unfoldable pub with_tracked : ℕ → List ℕ → List ℕ
unfolding id_already_tracked
with_tracked id ids =
    if id_already_tracked id ids
    then ids
    else if not (ltb (length ids) max_created)
    then ids
    else ids ++ (id ∷ [])

-- The loop over the ids.
unfoldable pub latest_of : ℕ → List ℕ → ℕ
latest_of latest [] = latest
latest_of latest (i ∷ is) = latest_of (if ltb latest i then i else latest) is

-- The state of the buffer after a read.
abbrev kept : Option Bytes → Bytes → Bytes
kept none before = before
kept (some d) before = d

module _ {C : Type 0} where
  unfoldable pub track_created_id : ℕ → Action (Context C) (Unit {0})
  unfolding with_tracked modify
  track_created_id id = modify (λ x. record x { created_ids = with_tracked id x.created_ids })

  unfoldable pub latest_tracked_id : Context C → ℕ
  unfolding latest_of
  latest_tracked_id x = latest_of 0 x.created_ids

  unfoldable pub with_result : TestResult → Context C → Context C
  with_result r x = record x {
    tests_run = add32 x.tests_run 1;
    tests_failed = (if r.pass then x.tests_failed else add32 x.tests_failed 1);
    last = r;
    log = x.log ++ (r ∷ []);
  }

  -- snprintf into the detail's 120 bytes.
  unfoldable pub record_result : Bytes → Bool → Bytes → Action (Context C) (Unit {0})
  unfolding with_result modify
  record_result name pass detail =
      modify (with_result (record { pass = pass; name = name; detail = strlcpy 120 detail }))

  -- A call on the link.
  unfoldable pub on_link : {A : Type 0} → (C → A × C) → Action (Context C) A
  on_link f x = let (a, c) = f x.link in (a, record x { link = c })

  unfoldable pub on_link_ : (C → C) → Action (Context C) (Unit {0})
  on_link_ f x = (tt, record x { link = f x.link })

  -- A read into the capture: whether it returned ESP_OK.
  unfoldable pub reads : (C → EspErr × Option Bytes × C) → Action (Context C) Bool
  reads f x =
      let (err, d, c) = f x.link in (is_ok err, record x { capture = kept d x.capture; link = c })

  -- What a wait came to, if it ended.
  abbrev pub wait_answer : Option Bool → Context C → Bool × Context C
  wait_answer none x = (false, record x { stuck = true })
  wait_answer (some b) x = (b, x)

  -- A wait that may not end.
  unfoldable pub on_wait : (C → Option Bool × C) → Action (Context C) Bool
  on_wait f x = let (answer, c) = f x.link in wait_answer answer (record x { link = c })
