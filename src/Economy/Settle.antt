-- ===== src/Economy/Settle.antt =====
-- Creating a transaction and settling it (steps 3 to 5 of the methods of `EconomyService`) keeps
-- the invariant, from two rows of one creator where the paying viewer can cover the amount.
use ai_modrator.Common.{◌+◌, String, ◌≡◌, ◌∙◌, ◌≢◌, true, false, Option, none, some, All, arith}
use ai_modrator.Common.Int.{ℤ, pos, ◌≤ℤ◌, int_laws}
use ai_modrator.Economy.Tables.{
  AccountKey, viewer_type, Uuid, Account, TransactionType, Transaction, Db, find_account,
  find_transaction, create_transaction, create_ledger_entry,
}
use ai_modrator.Economy.Service.{
  viewer_key, settle, side_total, has_entries, verify_ledger_integrity,
}
use ai_modrator.Economy.Rows.{key_eq_iff}
use ai_modrator.Economy.Create.{EntryIssued-le}
use ai_modrator.Economy.Audit.{
  IsIssued, IsIssued-le, IsIssued-next, IsIssued-ne, account_net, EntryIssued, IsValid,
}
use ai_modrator.Economy.Moves.{
  find_account-moved, creator_total-moved, OneRowEach-moved, side_total_fresh,
}

-- Steps 3 to 5 together.
abbrev pub post :
    Account
    → Account
    → ℤ
    → String
    → TransactionType
    → String
    → String
    → Option String
    → Option String
    → Db
    → Db
post src dst amount creator_id kind key reason reference_type reference_id db =
    let (t, db') = create_transaction creator_id kind key reason reference_type reference_id db in
    settle src dst amount t db'

module _ (src dst : Account) (amount : ℤ) (creator_id : String) (kind : TransactionType)
    (key reason : String) (reference_type reference_id : Option String) (db : Db) (v : IsValid db)
    (found_src : find_account src.key db.accounts ≡ some src)
    (found_dst : find_account dst.key db.accounts ≡ some dst) (apart : src.key ≢ dst.key) where
  abbrev after : Db
  after = post src dst amount creator_id kind key reason reference_type reference_id db

  drawn_grows : after.drawn ≡ db.drawn + 3
  unfolding settle create_transaction create_ledger_entry
  drawn_grows = omega arith

  -- An id that was issued before still is, and so is the new transaction's.
  still-IsIssued : (i : Uuid) → IsIssued db.uuid4 db.drawn i → IsIssued after.uuid4 after.drawn i
  unfolding settle create_transaction create_ledger_entry
  still-IsIssued i = IsIssued-le db.uuid4 db.drawn after.drawn i (omega arith)

  new-IsIssued : IsIssued after.uuid4 after.drawn (db.uuid4 db.drawn)
  unfolding settle create_transaction create_ledger_entry
  new-IsIssued =
      IsIssued-le db.uuid4 (db.drawn + 1) after.drawn (db.uuid4 db.drawn) (omega arith)
        (IsIssued-next db.uuid4 db.drawn)

  post_entry_ids : All (EntryIssued after.uuid4 after.drawn) after.entries
  unfolding settle create_transaction create_ledger_entry
  post_entry_ids = (
    (new-IsIssued, still-IsIssued dst.id (v.account_ids dst.key dst found_dst)),
    (
      (new-IsIssued, still-IsIssued src.id (v.account_ids src.key src found_src)),
      EntryIssued-le db.uuid4 db.drawn after.drawn db.entries (omega arith) v.entry_ids,
    ),
  )

  post_account_ids :
      (k : AccountKey) (a : Account)
      → find_account k after.accounts ≡ some a
      → IsIssued after.uuid4 after.drawn a.id
  unfolding settle create_transaction create_ledger_entry
  post_account_ids k a h = ground (
    arith,
    find_account-moved src dst amount db.accounts found_src found_dst apart k,
    still-IsIssued a.id,
    v.account_ids src.key src found_src,
    v.account_ids dst.key dst found_dst,
    v.account_ids k a,
  )

  post_transaction_ids :
      (c k : String) (t : Transaction)
      → find_transaction c k after.transactions ≡ some t
      → IsIssued after.uuid4 after.drawn t.id
  unfolding settle create_transaction create_ledger_entry find_transaction
  post_transaction_ids c k t h =
      ground (arith, still-IsIssued t.id, new-IsIssued, v.transaction_ids c k t)

  post_balanced : (i : Uuid) → side_total i true after.entries ≡ side_total i false after.entries
  unfolding settle create_transaction create_ledger_entry side_total
  post_balanced i = ground (arith, v.balanced i)

  -- The new transaction's sides hold the amount; those of an older one are unchanged.
  post_verified :
      pos 1 ≤ℤ amount
      → (c k : String) (t : Transaction) → find_transaction c k after.transactions ≡ some t
      → verify_ledger_integrity t.id after ≡ true
  unfolding settle create_transaction create_ledger_entry find_transaction verify_ledger_integrity
      has_entries side_total
  post_verified p c k t h = grind (
    int_laws,
    v.transaction_ids c k t,
    v.verified c k t,
    IsIssued-ne db.uuid4 db.drawn t.id v.distinct,
    side_total_fresh db.uuid4 db.drawn true db.entries v.distinct v.entry_ids,
    side_total_fresh db.uuid4 db.drawn false db.entries v.distinct v.entry_ids,
  )

  post_one_key :
      (j k : AccountKey) (a b : Account)
      → find_account j after.accounts ≡ some a
      → find_account k after.accounts ≡ some b
      → a.id ≡ b.id
      → j ≡ k
  unfolding settle create_transaction create_ledger_entry
  post_one_key j k a b ha hb e = ground (
    arith,
    find_account-moved src dst amount db.accounts found_src found_dst apart k,
    find_account-moved src dst amount db.accounts found_src found_dst apart j,
    key_eq_iff src.key j,
    key_eq_iff dst.key j,
    key_eq_iff src.key k,
    key_eq_iff dst.key k,
    v.one_key j k a b,
    v.one_key j src.key a src,
    v.one_key j dst.key a dst,
    v.one_key src.key k src b,
    v.one_key dst.key k dst b,
    v.one_key src.key dst.key src dst,
    v.one_key dst.key src.key dst src,
  )

  post_no_overdraft :
      pos 0 ≤ℤ amount
      → (src.key.account_type ≡ viewer_type → amount ≤ℤ src.balance)
      → (c w : String) (a : Account) → find_account (viewer_key c w) after.accounts ≡ some a
      → pos 0 ≤ℤ a.balance
  unfolding settle create_transaction create_ledger_entry
  post_no_overdraft p cover c w a h = grind (
    int_laws,
    find_account-moved src dst amount db.accounts found_src found_dst apart (viewer_key c w),
    key_eq_iff src.key (viewer_key c w),
    key_eq_iff dst.key (viewer_key c w),
    v.no_overdraft c w,
  )

  post_audited :
      (k : AccountKey) (a : Account)
      → find_account k after.accounts ≡ some a
      → a.balance ≡ account_net a.id after.entries
  unfolding settle create_transaction create_ledger_entry account_net
  post_audited k a h = ground (
    arith,
    find_account-moved src dst amount db.accounts found_src found_dst apart k,
    key_eq_iff src.key k,
    key_eq_iff dst.key k,
    v.audited k a,
    v.audited src.key src,
    v.audited dst.key dst,
    v.one_key k src.key a src,
    v.one_key k dst.key a dst,
    v.one_key src.key dst.key src dst,
  )

  pub post-IsValid :
      pos 1 ≤ℤ amount
      → (src.key.account_type ≡ viewer_type → amount ≤ℤ src.balance)
      → src.key.creator_id ≡ dst.key.creator_id
      → find_transaction creator_id key db.transactions ≡ none
      → IsValid after
  unfolding settle create_transaction create_ledger_entry
  post-IsValid p cover same unused = record {
    distinct = v.distinct;
    one_row = OneRowEach-moved src dst amount db.accounts found_src found_dst apart v.one_row;
    one_use = (unused, v.one_use);
    account_ids = post_account_ids;
    entry_ids = post_entry_ids;
    transaction_ids = post_transaction_ids;
    one_key = post_one_key;
    no_overdraft = post_no_overdraft (omega arith) cover;
    audited = post_audited;
    closed = λ c.
        creator_total-moved src dst amount db.accounts found_src found_dst apart c same
        ∙ v.closed c;
    balanced = post_balanced;
    verified = post_verified p;
  }
