-- ===== src/Economy/Replay.antt =====
-- What a client of `EconomyService` (app/economy/ledger.py) may rely on: a repeated call does
-- nothing and returns the first call's transaction, and one creator's calls leave the others alone.
use ai_modrator.Common.{String, ◌≡◌, true, ◌≢◌, false, Option, none, some, eq_iff, arith}
use ai_modrator.Common.Int.{ℤ}
use ai_modrator.Common.Text.{or_text}
use ai_modrator.Economy.Tables.{
  AccountKey, purchase, transfer_type, TransactionType, Transaction, Db, get_transaction_by_key,
  create_transaction, create_ledger_entry,
}
use ai_modrator.Economy.Service.{
  duplicate, mint_key, sink_key, viewer_key, mint_to_viewer, settle, earn_key, earn, pay, spend_key,
  spend, transfer_key, transfer, give, grant_reason,
}
use ai_modrator.Economy.Rows.{key_eq_iff}
use ai_modrator.Economy.Book.{is_used, book_of, earn-refines, spend-refines, transfer-refines}
use ai_modrator.Economy.Runs.{Call, earn_call, spend_call, transfer_call, give_call, call}

recorded_mint :
    (c w : String) (x : ℤ) (reason key : String) (rt ri : Option String) (db : Db)
    → get_transaction_by_key c key (mint_to_viewer c w x reason key rt ri db).1
      ≡ (mint_to_viewer c w x reason key rt ri db).0.transaction
unfolding mint_to_viewer settle create_transaction create_ledger_entry get_transaction_by_key
recorded_mint c w x reason key rt ri db = ground (arith, eq_iff c c, eq_iff key key)

recorded_payment :
    (src dst : AccountKey) (x : ℤ) (kind : TransactionType) (reason key : String)
    (rt ri : Option String) (db : Db) (t : Transaction)
    → (pay src dst x kind reason key rt ri db).0.transaction ≡ some t
    → get_transaction_by_key src.creator_id key (pay src dst x kind reason key rt ri db).1 ≡ some t
unfolding pay settle create_transaction create_ledger_entry get_transaction_by_key
recorded_payment src dst x kind reason key rt ri db t h =
    ground (arith, eq_iff src.creator_id src.creator_id, eq_iff key key)

earn_replayed :
    (c w : String) (x : ℤ) (reason : String) (key rt ri : Option String) (db : Db) (t : Transaction)
    → (earn c w x reason key rt ri db).0.transaction ≡ some t
    → earn c w x reason key rt ri (earn c w x reason key rt ri db).1
      ≡ (duplicate t, (earn c w x reason key rt ri db).1)
unfolding earn
earn_replayed c w x reason key rt ri db t h =
    ground (arith, recorded_mint c w x reason (or_text key (earn_key c w reason)) rt ri db)

spend_replayed :
    (c w : String) (x : ℤ) (reason : String) (key rt ri : Option String) (db : Db) (t : Transaction)
    → (spend c w x reason key rt ri db).0.transaction ≡ some t
    → spend c w x reason key rt ri (spend c w x reason key rt ri db).1
      ≡ (duplicate t, (spend c w x reason key rt ri db).1)
unfolding spend
spend_replayed c w x reason key rt ri db t h = ground (
  arith,
  recorded_payment (viewer_key c w) (sink_key c) x purchase reason
      (or_text key (spend_key c w reason)) rt ri db t,
)

transfer_replayed :
    (c f to : String) (x : ℤ) (reason : String) (key : Option String) (db : Db) (t : Transaction)
    → (transfer c f to x reason key db).0.transaction ≡ some t
    → transfer c f to x reason key (transfer c f to x reason key db).1
      ≡ (duplicate t, (transfer c f to x reason key db).1)
unfolding transfer
transfer_replayed c f to x reason key db t h = ground (
  arith,
  recorded_payment (viewer_key c f) (viewer_key c to) x transfer_type reason
      (or_text key (transfer_key c f to x)) none none db t,
)

-- If a call returned a transaction, then the same call again changes nothing, reports success as
-- a duplicate, and returns the same transaction.
pub call_replayed :
    (e : Call) (db : Db) (t : Transaction)
    → (call e db).0.transaction ≡ some t
    → call e (call e db).1 ≡ (duplicate t, (call e db).1)
unfolding call give
call_replayed (earn_call c w x reason key rt ri) db t h =
    earn_replayed c w x reason key rt ri db t h
call_replayed (spend_call c w x reason key rt ri) db t h =
    spend_replayed c w x reason key rt ri db t h
call_replayed (transfer_call c f to x reason key) db t h =
    transfer_replayed c f to x reason key db t h
call_replayed (give_call c admin to x reason key) db t h =
    earn_replayed c to x (grant_reason admin reason) key (some "admin_command") (some admin) db t h

-- A call that returns no transaction reports failure and leaves the tables as they were.
pub call_refused :
    (e : Call) (db : Db)
    → (call e db).0.transaction ≡ none
    → ((call e db).0.ok ≡ false) × ((call e db).1 ≡ db)
unfolding call give earn spend transfer pay mint_to_viewer
call_refused (earn_call c w x reason key rt ri) db h = ground arith
call_refused (spend_call c w x reason key rt ri) db h = ground arith
call_refused (transfer_call c f to x reason key) db h = ground arith
call_refused (give_call c admin to x reason key) db h = ground arith

abbrev pub creator_of : Call → String
creator_of (earn_call c w x reason key rt ri) = c
creator_of (spend_call c w x reason key rt ri) = c
creator_of (transfer_call c f to x reason key) = c
creator_of (give_call c admin to x reason key) = c

-- A call for one creator leaves every balance of another creator as it was.
pub call_isolated :
    (e : Call) (db : Db) (k : AccountKey)
    → k.creator_id ≢ creator_of e
    → book_of (call e db).1 k ≡ book_of db k
unfolding call give
call_isolated (earn_call c w x reason key rt ri) db k h = ground (
  arith,
  earn-refines c w x reason key rt ri db k,
  key_eq_iff (mint_key c) k,
  key_eq_iff (viewer_key c w) k,
)
call_isolated (spend_call c w x reason key rt ri) db k h = ground (
  arith,
  spend-refines c w x reason key rt ri db k,
  key_eq_iff (sink_key c) k,
  key_eq_iff (viewer_key c w) k,
)
call_isolated (transfer_call c f to x reason key) db k h = ground (
  arith,
  transfer-refines c f to x reason key db k,
  key_eq_iff (viewer_key c f) k,
  key_eq_iff (viewer_key c to) k,
)
call_isolated (give_call c admin to x reason key) db k h = ground (
  arith,
  earn-refines c to x (grant_reason admin reason) key (some "admin_command") (some admin) db k,
  key_eq_iff (mint_key c) k,
  key_eq_iff (viewer_key c to) k,
)

-- A refused payment leaves the tables of the economy alone.
pub spend_refused :
    (c w : String) (x : ℤ) (reason : String) (key rt ri : Option String) (db : Db)
    → (spend c w x reason key rt ri db).0.ok ≡ false
    → (spend c w x reason key rt ri db).1 ≡ db
unfolding spend pay
spend_refused c w x reason key rt ri db h = ground arith

payment_uses_key :
    (src dst : AccountKey) (x : ℤ) (kind : TransactionType) (reason key : String)
    (rt ri : Option String) (db : Db)
    → (pay src dst x kind reason key rt ri db).0.ok ≡ true
    → is_used src.creator_id key (pay src dst x kind reason key rt ri db).1 ≡ true
unfolding pay settle create_transaction create_ledger_entry get_transaction_by_key is_used
payment_uses_key src dst x kind reason key rt ri db h =
    ground (arith, eq_iff src.creator_id src.creator_id, eq_iff key key)

-- After an accepted payment its key is in use.
pub spend_uses_key :
    (c w : String) (x : ℤ) (reason : String) (key rt ri : Option String) (db : Db)
    → (spend c w x reason key rt ri db).0.ok ≡ true
    → is_used c (or_text key (spend_key c w reason)) (spend c w x reason key rt ri db).1 ≡ true
unfolding spend is_used
spend_uses_key c w x reason key rt ri db h = ground (
  arith,
  payment_uses_key (viewer_key c w) (sink_key c) x purchase reason
      (or_text key (spend_key c w reason)) rt ri db,
)
