-- ===== src/Cache/Dedupe.antt =====
-- `ChatDeduplicator` (app/youtube/chat/dedupe.py) and `WebSubDeduplicator`
-- (app/youtube/websub/dedupe.py) over the Redis of `Cache.Redis`.
use ai_modrator.Common.{
  ℕ, ◌+◌, ◌≤◌, String, ◌≡◌, Bool, true, false, not, none, some, List, [], ◌∷◌, All, str_eq, eq_iff,
  if◌then◌else◌, arith,
}
use ai_modrator.Common.Text.{◌⊕◌}
use ai_modrator.Cache.Redis.{Redis, seconds, set, value_at}
use ai_modrator.Cache.View.{set_lem, value_at-set, value_at-earlier, value_at-set_nx}

unfoldable pub chat_key : String → String
chat_key message_id = "chat" ⊕ "dedupe" ⊕ message_id

unfoldable pub websub_key : String → String
websub_key dedupe_hash = "websub" ⊕ "dedupe" ⊕ dedupe_hash

-- The body that the two share: an atomic `set` with `nx`.
unfoldable pub seen_or_record : String → ℕ → ℕ → Redis → Bool × Redis
seen_or_record key ttl_seconds now r =
    let (is_new, r') = set key "1" (some ttl_seconds) none true now r in (not is_new, r')

unfoldable pub is_duplicate_message : ℕ → String → ℕ → Redis → Bool × Redis
is_duplicate_message ttl_seconds message_id now r =
    if str_eq message_id ""
    then (false, r)
    else seen_or_record (chat_key message_id) ttl_seconds now r

unfoldable pub is_duplicate_notification : ℕ → String → ℕ → Redis → Bool × Redis
is_duplicate_notification ttl_seconds dedupe_hash now r =
    seen_or_record (websub_key dedupe_hash) ttl_seconds now r

-- A check of a chat message or of a notification, at a time.
pub data Check : Type 0 where
  message : String → ℕ → Check
  notification : String → ℕ → Check

module _ (chat_ttl websub_ttl : ℕ) where
  unfoldable pub check : Check → Redis → Bool × Redis
  check (message m now) r = is_duplicate_message chat_ttl m now r
  check (notification h now) r = is_duplicate_notification websub_ttl h now r

  unfoldable pub run : List Check → Redis → Redis
  run [] r = r
  run (c ∷ cs) r = run cs (check c r).1

  abbrev pub IsBefore : ℕ → Check → Type 0
  IsBefore later (message m now) = now ≤ later
  IsBefore later (notification h now) = now ≤ later

  check-kept :
      (key v : String) (later : ℕ) (c : Check) (r : Redis)
      → IsBefore later c
      → value_at key later r ≡ some v
      → value_at key later (check c r).1 ≡ some v
  unfolding check is_duplicate_message is_duplicate_notification seen_or_record
  check-kept key v later (message m now) r h e =
      ground (arith, value_at-set_nx (chat_key m) "1" key v (some chat_ttl) none now later r h e)
  check-kept key v later (notification i now) r h e =
      ground
        (arith, value_at-set_nx (websub_key i) "1" key v (some websub_ttl) none now later r h e)

  run-kept :
      (key v : String) (later : ℕ) (cs : List Check) (r : Redis)
      → All (IsBefore later) cs
      → value_at key later r ≡ some v
      → value_at key later (run cs r) ≡ some v
  unfolding run
  run-kept key v later [] r all e = e
  run-kept key v later (c ∷ cs) r all e =
      run-kept key v later cs (check c r).1 all.1 (check-kept key v later c r all.0 e)

  recorded-kept :
      (key : String) (ttl now : ℕ) (r : Redis)
      → (seen_or_record key ttl now r).0 ≡ false
      → value_at key (now + seconds ttl) (seen_or_record key ttl now r).1 ≡ some "1"
  unfolding seen_or_record
  recorded-kept key ttl now r e = ground (
    arith,
    eq_iff key key,
    set_lem key "1" (some ttl) none true now r,
    value_at-set key "1" key (some ttl) none true now (now + seconds ttl) r,
  )

  seen_again :
      (key v : String) (ttl later : ℕ) (r : Redis)
      → value_at key later r ≡ some v
      → (seen_or_record key ttl later r).0 ≡ true
  unfolding seen_or_record
  seen_again key v ttl later r e = ground (arith, set_lem key "1" (some ttl) none true later r)

  -- Once a chat message with an id is recorded as new, every later check of the id within the
  -- time to live reports a duplicate, whatever other messages and notifications are checked in
  -- between, not after that time.
  pub message_once :
      (m : String) (now later : ℕ) (cs : List Check) (r : Redis)
      → str_eq m "" ≡ false
      → (check (message m now) r).0 ≡ false
      → later ≤ now + seconds chat_ttl
      → All (IsBefore (now + seconds chat_ttl)) cs
      → (check (message m later) (run cs (check (message m now) r).1)).0 ≡ true
  unfolding check is_duplicate_message
  message_once m now later cs r named new h all =
      let key = chat_key m in
      let first : (seen_or_record key chat_ttl now r).0 ≡ false = ground (arith, named, new) in
      let r1 = (seen_or_record key chat_ttl now r).1 in
      let kept =
        run-kept key "1" (now + seconds chat_ttl) cs r1 all
          (recorded-kept key chat_ttl now r first) in
      ground (
        arith,
        named,
        seen_again key "1" chat_ttl later (run cs r1)
            (value_at-earlier key "1" later (now + seconds chat_ttl) (run cs r1) h kept),
      )
