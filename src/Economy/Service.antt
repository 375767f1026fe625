-- ===== src/Economy/Service.antt =====
-- `EconomyService` of app/economy/ledger.py: each method takes the database and returns its triple
-- (success, reason, transaction) with the new database.
use Prim.Native.String.{◌++◌}
use ai_modrator.Common.{
  String, Bool, true, false, ◌&&◌, not, Option, none, some, List, [], ◌∷◌, str_eq, ◌==◌,
  if◌then◌else◌,
}
use ai_modrator.Common.Int.{ℤ, pos, ◌+ℤ◌, ltb_ℤ, leb_ℤ, eqb_ℤ}
use ai_modrator.Common.Text.{decimal, ◌⊕◌, or_text}
use ai_modrator.Economy.Tables.{
  viewer_type, system_mint, system_sink, AccountKey, Uuid, Account, TransactionType, reward,
  purchase, transfer_type, Transaction, Direction, debit, credit, LedgerEntry, Db, get_account,
  get_or_create_account, get_transaction_by_key, create_transaction, create_ledger_entry,
  add_to_balance, take_from_balance, balance_of,
}

-- The reason texts; `insufficient_funds` carries the two numbers that its text prints.
pub data Reason : Type 0 where
  success invalid_amount duplicate_transaction_skipped cannot_transfer_to_self : Reason
  insufficient_funds : ℤ → ℤ → Reason

pub record Reply : Type 0 where
  pub ok : Bool
  pub reason : Reason
  pub transaction : Option Transaction

abbrev pub refused : Reason → Reply
refused r = record { ok = false; reason = r; transaction = none }

abbrev pub duplicate : Transaction → Reply
duplicate t = record { ok = true; reason = duplicate_transaction_skipped; transaction = some t }

abbrev pub done : Transaction → Reply
done t = record { ok = true; reason = success; transaction = some t }

abbrev pub mint_key : String → AccountKey
mint_key creator_id = record {
  creator_id = creator_id;
  viewer_channel_id = "__system_mint__";
  account_type = system_mint;
}

abbrev pub sink_key : String → AccountKey
sink_key creator_id = record {
  creator_id = creator_id;
  viewer_channel_id = "__system_sink__";
  account_type = system_sink;
}

abbrev pub viewer_key : String → String → AccountKey
viewer_key creator_id viewer_channel_id = record {
  creator_id = creator_id;
  viewer_channel_id = viewer_channel_id;
  account_type = viewer_type;
}

unfoldable pub get_balance : String → String → Db → ℤ
get_balance creator_id viewer_channel_id db =
    elim (get_account (viewer_key creator_id viewer_channel_id) db) [
      | none ↦ pos 0
      | some a ↦ a.balance
    ]

-- Steps 4 and 5 of the three methods: `src` is debited and `dst` is credited, then each change is
-- entered in the ledger with the balance that it left.
unfoldable pub settle : Account → Account → ℤ → Transaction → Db → Db
settle src dst amount t db =
    let moved = add_to_balance dst.key amount (take_from_balance src.key amount db.accounts) in
    create_ledger_entry t.id dst.id credit amount (balance_of dst.key moved) (
      create_ledger_entry t.id src.id debit amount (balance_of src.key moved)
        (record db { accounts = moved }))

-- Steps 2 to 5 of `earn`.
unfoldable pub mint_to_viewer :
    String → String → ℤ → String → String → Option String → Option String → Db → Reply × Db
mint_to_viewer creator_id viewer_channel_id amount reason key reference_type reference_id db =
    let (mint_account, db1) = get_or_create_account (mint_key creator_id) db in
    let (viewer_account, db2) =
      get_or_create_account (viewer_key creator_id viewer_channel_id) db1 in
    let (t, db3) =
      create_transaction creator_id reward key reason reference_type reference_id db2 in
    (done t, settle mint_account viewer_account amount t db3)

unfoldable pub earn_key : String → String → String → String
earn_key creator_id viewer_channel_id reason = "earn" ⊕ creator_id ⊕ viewer_channel_id ⊕ reason

unfoldable pub earn :
    String → String → ℤ → String → Option String → Option String → Option String → Db → Reply × Db
earn creator_id viewer_channel_id amount reason key reference_type reference_id db =
    if leb_ℤ amount (pos 0)
    then (refused invalid_amount, db)
    else let idem_key = or_text key (earn_key creator_id viewer_channel_id reason) in
      elim (get_transaction_by_key creator_id idem_key db) [
        | some t ↦ (duplicate t, db)
        | none ↦
            mint_to_viewer creator_id viewer_channel_id amount reason idem_key reference_type
              reference_id db
      ]

-- Steps 2 to 5 of `spend`, and the same of `transfer`, from the lookup of the paying account on.
unfoldable pub pay :
    AccountKey
    → AccountKey
    → ℤ
    → TransactionType
    → String
    → String
    → Option String
    → Option String
    → Db
    → Reply × Db
pay src_key dst_key amount kind reason key reference_type reference_id db =
    elim (get_account src_key db) [
      | none ↦ (refused (insufficient_funds amount (pos 0)), db)
      | some src ↦
          if ltb_ℤ src.balance amount
          then (refused (insufficient_funds amount src.balance), db)
          else let (dst, db1) = get_or_create_account dst_key db in
            let (t, db2) =
              create_transaction src_key.creator_id kind key reason reference_type reference_id
                db1 in
            (done t, settle src dst amount t db2)
    ]

unfoldable pub spend_key : String → String → String → String
spend_key creator_id viewer_channel_id reason = "spend" ⊕ creator_id ⊕ viewer_channel_id ⊕ reason

unfoldable pub spend :
    String → String → ℤ → String → Option String → Option String → Option String → Db → Reply × Db
spend creator_id viewer_channel_id amount reason key reference_type reference_id db =
    if leb_ℤ amount (pos 0)
    then (refused invalid_amount, db)
    else let idem_key = or_text key (spend_key creator_id viewer_channel_id reason) in
      elim (get_transaction_by_key creator_id idem_key db) [
        | some t ↦ (duplicate t, db)
        | none ↦
            pay (viewer_key creator_id viewer_channel_id) (sink_key creator_id) amount purchase
              reason idem_key reference_type reference_id db
      ]

unfoldable pub transfer_key : String → String → String → ℤ → String
transfer_key creator_id from_viewer_id to_viewer_id amount =
    "xfer" ⊕ creator_id ⊕ from_viewer_id ⊕ to_viewer_id ⊕ decimal amount

unfoldable pub transfer : String → String → String → ℤ → String → Option String → Db → Reply × Db
transfer creator_id from_viewer_id to_viewer_id amount reason key db =
    if leb_ℤ amount (pos 0)
    then (refused invalid_amount, db)
    else if str_eq from_viewer_id to_viewer_id
    then (refused cannot_transfer_to_self, db)
    else let idem_key = or_text key (transfer_key creator_id from_viewer_id to_viewer_id amount) in
      elim (get_transaction_by_key creator_id idem_key db) [
        | some t ↦ (duplicate t, db)
        | none ↦
            pay (viewer_key creator_id from_viewer_id) (viewer_key creator_id to_viewer_id) amount
              transfer_type reason idem_key none none db
      ]

-- `f"Admin grant by {admin_id}: {reason}"`.
unfoldable pub grant_reason : String → String → String
grant_reason admin_id reason = "Admin grant by " ++ (admin_id ++ (": " ++ reason))

unfoldable pub give : String → String → String → ℤ → String → Option String → Db → Reply × Db
give creator_id admin_id to_viewer_id amount reason key =
    earn creator_id to_viewer_id amount (grant_reason admin_id reason) key (some "admin_command")
      (some admin_id)

abbrev pub is_side : Bool → Direction → Bool
is_side on_credit credit = on_credit
is_side on_credit debit = not on_credit

-- The sum of the entries of one transaction on one side.
unfoldable pub side_total : Uuid → Bool → List LedgerEntry → ℤ
side_total transaction_id on_credit [] = pos 0
side_total transaction_id on_credit (e ∷ es) =
    let rest = side_total transaction_id on_credit es in
    if e.transaction_id == transaction_id && is_side on_credit e.direction
    then e.amount +ℤ rest
    else rest

unfoldable pub has_entries : Uuid → List LedgerEntry → Bool
has_entries transaction_id [] = false
has_entries transaction_id (e ∷ es) =
    let rest = has_entries transaction_id es in
    if e.transaction_id == transaction_id then true else rest

unfoldable pub verify_ledger_integrity : Uuid → Db → Bool
verify_ledger_integrity transaction_id db =
    if has_entries transaction_id db.entries
    then (let credits = side_total transaction_id true db.entries in
        let debits = side_total transaction_id false db.entries in
        eqb_ℤ credits debits && ltb_ℤ (pos 0) credits)
    else false
