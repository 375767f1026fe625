-- ===== src/Economy/Book.antt =====
-- The methods of `EconomyService` (app/economy/ledger.py) against a description by balances alone:
-- a book gives each account's balance, 0 where it has no row, and a payment moves an amount.
use ai_modrator.Common.{
  String, ◌≡◌, ◌∙◌, ◌≢◌, Bool, true, false, ◌||◌, Option, none, some, str_eq, eq_iff, if◌then◌else◌,
  arith, inl, inr, Option-cases,
}
use ai_modrator.Common.Int.{ℤ, pos, ◌+ℤ◌, ◌-ℤ◌, ◌≤ℤ◌, ltb_ℤ, leb_ℤ}
use ai_modrator.Common.Text.{or_text}
use ai_modrator.Economy.Tables.{
  AccountKey, reward, purchase, transfer_type, key_eq, Account, TransactionType, Db, find_account,
  get_account, get_or_create_account, get_transaction_by_key, create_transaction,
  create_ledger_entry, balance_of,
}
use ai_modrator.Economy.Service.{
  mint_key, sink_key, viewer_key, settle, mint_to_viewer, earn_key, earn, pay, spend_key, spend,
  transfer_key, transfer,
}
use ai_modrator.Economy.Rows.{key_eq_iff, find_account-key}
use ai_modrator.Economy.Create.{
  find_account-get_or_create_account, key-get_or_create_account, balance_of-get_or_create_account,
}
use ai_modrator.Economy.Moves.{find_account-moved}
use ai_modrator.Economy.Settle.{post}

abbrev pub Book : Type 0
Book = AccountKey → ℤ

abbrev pub book_of : Db → Book
book_of db k = balance_of k db.accounts

-- The book after a payment of `x` from one account to another.
abbrev pub paid : AccountKey → AccountKey → ℤ → Book → Book
paid src dst x book k =
    if key_eq src k then book k -ℤ x else if key_eq dst k then book k +ℤ x else book k

-- After `get_or_create_account` for another key, an account that was there still is.
module _ (src : Account) (k : AccountKey) (db : Db)
    (found : find_account src.key db.accounts ≡ some src) (apart : src.key ≢ k) where
  pub payer_found : find_account src.key (get_or_create_account k db).1.accounts ≡ some src
  payer_found =
      ground (arith, find_account-get_or_create_account k db src.key, key_eq_iff src.key k)

  pub payee_apart : src.key ≢ (get_or_create_account k db).0.key
  payee_apart = rw (key-get_or_create_account k db) apart

pub created_found :
    (k : AccountKey) (db : Db)
    → find_account (get_or_create_account k db).0.key (get_or_create_account k db).1.accounts
      ≡ some (get_or_create_account k db).0
created_found k db =
    rw (key-get_or_create_account k db)
      (ground (arith, find_account-get_or_create_account k db k, key_eq_iff k k))

-- Whether the creator has a transaction with this idempotency key.
unfoldable pub is_used : String → String → Db → Bool
is_used creator_id key db = elim (get_transaction_by_key creator_id key db) [
  | none ↦ false
  | some _ ↦ true
]

module _ (src dst : Account) (amount : ℤ) (creator_id : String) (kind : TransactionType)
    (key reason : String) (reference_type reference_id : Option String) (db : Db)
    (found_src : find_account src.key db.accounts ≡ some src)
    (found_dst : find_account dst.key db.accounts ≡ some dst) (apart : src.key ≢ dst.key) where
  pub book_of-post :
      (k : AccountKey)
      → book_of (post src dst amount creator_id kind key reason reference_type reference_id db) k
        ≡ paid src.key dst.key amount (book_of db) k
  unfolding settle create_transaction create_ledger_entry balance_of
  book_of-post k = ground (
    arith,
    find_account-moved src dst amount db.accounts found_src found_dst apart k,
    key_eq_iff src.key k,
    key_eq_iff dst.key k,
  )

module _ (creator_id viewer_channel_id : String) (amount : ℤ) (reason key : String)
    (reference_type reference_id : Option String) (db : Db) where
  abbrev pub minted : Account × Db
  minted = get_or_create_account (mint_key creator_id) db

  abbrev pub credited : Account × Db
  credited = get_or_create_account (viewer_key creator_id viewer_channel_id) minted.1

  pub mint_apart : minted.0.key ≢ viewer_key creator_id viewer_channel_id
  mint_apart = rw key-get_or_create_account (ground arith)

  pub mint_found : find_account minted.0.key credited.1.accounts ≡ some minted.0
  mint_found =
      payer_found minted.0 (viewer_key creator_id viewer_channel_id) minted.1
        (created_found (mint_key creator_id) db) mint_apart

  pub book_of-mint_to_viewer :
      (k : AccountKey)
      → book_of
          (mint_to_viewer creator_id viewer_channel_id amount reason key reference_type reference_id
            db).1
          k
        ≡ paid (mint_key creator_id) (viewer_key creator_id viewer_channel_id) amount (book_of db) k
  unfolding mint_to_viewer
  book_of-mint_to_viewer k =
      let vk = viewer_key creator_id viewer_channel_id in
      book_of-post minted.0 credited.0 amount creator_id reward key reason reference_type
        reference_id credited.1 mint_found (created_found vk minted.1)
        (payee_apart minted.0 vk minted.1 (created_found (mint_key creator_id) db) mint_apart) k
      ∙ ground (
        arith,
        key-get_or_create_account (mint_key creator_id) db,
        key-get_or_create_account vk minted.1,
        balance_of-get_or_create_account vk minted.1 k,
        balance_of-get_or_create_account (mint_key creator_id) db k,
      )

module _ (src dst : AccountKey) (amount : ℤ) (kind : TransactionType) (reason key : String)
    (reference_type reference_id : Option String) (db : Db) (apart : src ≢ dst) where
  abbrev payee : Account × Db
  payee = get_or_create_account dst db

  -- The payer's row, found by its own key.
  payer_row :
      (a : Account)
      → find_account src db.accounts ≡ some a
      → find_account a.key db.accounts ≡ some a
  payer_row a e = cc (find_account-key src db.accounts a e)

  payer_apart : (a : Account) → find_account src db.accounts ≡ some a → a.key ≢ dst
  payer_apart a e = rw (find_account-key src db.accounts a e) apart

  book_of-post_payment :
      (k : AccountKey) (a : Account)
      → find_account src db.accounts ≡ some a
      → book_of
          (post a payee.0 amount src.creator_id kind key reason reference_type reference_id payee.1)
          k
        ≡ paid src dst amount (book_of db) k
  book_of-post_payment k a e =
      book_of-post a payee.0 amount src.creator_id kind key reason reference_type reference_id
        payee.1 (payer_found a dst db (payer_row a e) (payer_apart a e)) (created_found dst db)
        (payee_apart a dst db (payer_row a e) (payer_apart a e)) k
      ∙ ground (
        arith,
        key-get_or_create_account dst db,
        find_account-key src db.accounts a e,
        balance_of-get_or_create_account dst db k,
      )

-- The payment of `spend` and `transfer`, in all its branches.
pub book_of-pay :
    (src dst : AccountKey) (amount : ℤ) (kind : TransactionType) (reason key : String)
    (reference_type reference_id : Option String) (db : Db) (k : AccountKey)
    → src ≢ dst
    → pos 1 ≤ℤ amount
    → book_of (pay src dst amount kind reason key reference_type reference_id db).1 k
      ≡ (if ltb_ℤ (book_of db src) amount then book_of db k else paid src dst amount (book_of db) k)
unfolding pay get_account balance_of
book_of-pay src dst amount kind reason key rt ri db k apart p =
    elim (Option-cases (find_account src db.accounts)) [
      | inl e ↦ ground arith
      | inr (a, e) ↦
          ground (arith, book_of-post_payment src dst amount kind reason key rt ri db apart k a e)
    ]

-- The book after one call, from the book before and the keys in use.
abbrev pub earned : String → String → ℤ → Bool → Book → Book
earned creator_id viewer_channel_id amount used book =
    if leb_ℤ amount (pos 0) || used
    then book
    else paid (mint_key creator_id) (viewer_key creator_id viewer_channel_id) amount book

abbrev pub spent : AccountKey → AccountKey → ℤ → Bool → Book → Book
spent src dst amount used book =
    if leb_ℤ amount (pos 0) || used || ltb_ℤ (book src) amount
    then book
    else paid src dst amount book

-- `earn` moves the amount from the mint to the viewer if the amount is positive and the
-- idempotency key unused, and otherwise leaves every balance.
pub earn-refines :
    (creator_id viewer_channel_id : String) (amount : ℤ) (reason : String)
    (key reference_type reference_id : Option String) (db : Db) (k : AccountKey)
    → book_of
        (earn creator_id viewer_channel_id amount reason key reference_type reference_id db).1
        k
      ≡ earned creator_id viewer_channel_id amount
          (is_used creator_id (or_text key (earn_key creator_id viewer_channel_id reason)) db)
          (book_of db)
          k
unfolding earn is_used
earn-refines c w amount reason key rt ri db k =
    let used = or_text key (earn_key c w reason) in
    ground (arith, book_of-mint_to_viewer c w amount reason used rt ri db k)

-- `spend` moves the amount from the viewer to the sink if the amount is positive, the idempotency
-- key unused and the balance large enough, and otherwise leaves every balance.
pub spend-refines :
    (creator_id viewer_channel_id : String) (amount : ℤ) (reason : String)
    (key reference_type reference_id : Option String) (db : Db) (k : AccountKey)
    → book_of
        (spend creator_id viewer_channel_id amount reason key reference_type reference_id db).1
        k
      ≡ spent
          (viewer_key creator_id viewer_channel_id)
          (sink_key creator_id)
          amount
          (is_used creator_id (or_text key (spend_key creator_id viewer_channel_id reason)) db)
          (book_of db)
          k
unfolding spend is_used
spend-refines c w amount reason key rt ri db k =
    let used = or_text key (spend_key c w reason) in
    ground (arith, book_of-pay (viewer_key c w) (sink_key c) amount purchase reason used rt ri db k)

-- `transfer` moves the amount from the sender to the receiver if they differ, the amount is
-- positive, the idempotency key unused and the sender's balance large enough, and otherwise
-- leaves every balance.
pub transfer-refines :
    (creator_id from_viewer_id to_viewer_id : String) (amount : ℤ) (reason : String)
    (key : Option String) (db : Db) (k : AccountKey)
    → book_of (transfer creator_id from_viewer_id to_viewer_id amount reason key db).1 k ≡ (
        if str_eq from_viewer_id to_viewer_id
        then book_of db k
        else spent
            (viewer_key creator_id from_viewer_id)
            (viewer_key creator_id to_viewer_id)
            amount
            (is_used creator_id
              (or_text key (transfer_key creator_id from_viewer_id to_viewer_id amount))
              db)
            (book_of db)
            k)
unfolding transfer is_used
transfer-refines c f t amount reason key db k =
    let used = or_text key (transfer_key c f t amount) in
    ground (
      arith,
      eq_iff f t,
      book_of-pay (viewer_key c f) (viewer_key c t) amount transfer_type reason used none none db k,
    )
