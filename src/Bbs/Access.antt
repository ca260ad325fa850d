-- ===== src/Bbs/Access.antt =====
-- main/bbs.c: who may kill a message, and which messages count as unread.
use esp_tnc.Prelude.{
  ℕ, ◌+◌, ◌≤◌, ◌<◌, ◌≡◌, ◌↔◌, refl, ◌∙◌, Bool, true, false, ◌&&◌, ◌||◌, none, some, List, [], ◌∷◌,
  ltb, ◌==◌, if◌then◌else◌, is_empty, arith, inl, inr, Bool-cases, Option-cases,
}
use esp_tnc.Esp.{is_ok}
use esp_tnc.Storage.{find, delete_message}
use esp_tnc.Storage.Index.{Message}
use esp_tnc.Storage.Deleting.{find-delete_message}
use esp_tnc.Bbs.Outside.{Platform}
use esp_tnc.Bbs.State.{Bbs}
use esp_tnc.Bbs.Messages.{
  is_related_to_user, may_kill, kill_found, cmd_kill, count_messages, any_unread, get_last_read,
  has_unread_messages, is_not_found,
}

-- The message is there, and the user is the sysop, its sender or its addressee.
abbrev pub is_own : {C : Type 0} → Bbs C → ℕ → Bool
is_own b id = elim (find b.storage id) [
  | none ↦ false
  | some m ↦ b.is_sysop || is_related_to_user b m
]

module _ {C : Type 0} (pf : Platform C) where
  may_kill_iff : (b : Bbs C) (m : Message) → may_kill b m ≡ (b.is_sysop || is_related_to_user b m)
  unfolding may_kill is_related_to_user
  may_kill_iff b m = ground arith

  own_missing : (b : Bbs C) (id : ℕ) → find b.storage id ≡ none → is_own b id ≡ false
  own_missing b id e = ground arith

  own_found :
      (b : Bbs C) (id : ℕ) (m : Message) → find b.storage id ≡ some m → is_own b id ≡ may_kill b m
  own_found b id m e = ground (arith, may_kill_iff b m)

  storage-kill_found :
      (id : ℕ) (m : Message) (b : Bbs C)
      → may_kill b m ≡ true
      → (kill_found pf id m b).storage ≡ (delete_message pf.io b.files b.storage id).1
  unfolding kill_found
  storage-kill_found id m b may = ground arith

  denied :
      (id : ℕ) (m : Message) (b : Bbs C)
      → may_kill b m ≡ false
      → (kill_found pf id m b).storage ≡ b.storage
  unfolding kill_found
  denied id m b may = ground arith

  -- On a valid store, K removes a message from the index exactly when it is there and the user is
  -- the sysop, its sender or its addressee; every other message is found as before.
  pub find-cmd_kill :
      (id j : ℕ) (b : Bbs C)
      → esp_tnc.Storage.Valid.IsValid b.storage
      → find (cmd_kill pf id b).storage j
        ≡ (if is_own b id && id == j then none else find b.storage j)
  unfolding cmd_kill
  find-cmd_kill id j b v = elim (Option-cases (find b.storage id)) [
    | inl missing ↦ rw (own_missing b id missing) (rw (missing, cmd_kill) refl)
    | inr (m, found) ↦ elim (Bool-cases (may_kill b m)) [
      | inl may ↦ rw (own_found b id m found ∙ may) (
          rw (found, cmd_kill)
            (rw (storage-kill_found id m b may)
              (find-delete_message pf.io b.files b.storage id j v)))
      | inr no_right ↦
          rw (own_found b id m found ∙ no_right)
            (rw (found, cmd_kill) (rw (denied id m b no_right) refl))
    ]
  ]

module _ {C : Type 0} (b : Bbs C) (last_read : ℕ) where
  count_grows :
      (ms : List Message) (total unread : ℕ)
      → unread ≤ (count_messages b last_read ms (total, unread)).1
  unfolding count_messages
  count_grows [] total unread = omega arith
  count_grows (m ∷ ms) total unread = ground (
    arith,
    count_grows ms total unread,
    count_grows ms (total + 1) unread,
    count_grows ms (total + 1) (unread + 1),
  )

  any_unread_iff :
      (ms : List Message) (total unread : ℕ)
      → any_unread b last_read ms ≡ ltb unread (count_messages b last_read ms (total, unread)).1
  unfolding any_unread count_messages
  any_unread_iff [] total unread = ground arith
  any_unread_iff (m ∷ ms) total unread = ground (
    arith,
    any_unread_iff ms total unread,
    any_unread_iff ms (total + 1) unread,
    count_grows ms (total + 1) (unread + 1),
  )

-- For an initialized session with a callsign, where NVS gives the last message read or has none,
-- unread messages are reported exactly when the banner counts one or more as new.
pub has_unread_messages_iff :
    {C : Type 0} (pf : Platform C) (b : Bbs C)
    → b.initialized ≡ true
    → is_empty b.remote_callsign ≡ false
    → (is_ok (get_last_read pf b).0 || is_not_found (get_last_read pf b).0) ≡ true
    → (has_unread_messages pf b ≡ true)
      ↔ (0 < (count_messages b (get_last_read pf b).1 b.storage.records (0, 0)).1)
unfolding has_unread_messages
has_unread_messages_iff pf b ready named known =
    let same = any_unread_iff b (get_last_read pf b).1 b.storage.records 0 0 in
    (λ h. ground (arith, same), λ h. ground (arith, same))
