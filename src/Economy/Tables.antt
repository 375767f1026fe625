-- ===== src/Economy/Tables.antt =====
-- The tables of app/db/models/economy.py and the operations of `EconomyRepository`
-- (app/db/repositories/economy_repo.py) on them. A table is the list of its rows. A call of the
-- service is one transaction of the database, so its reads and writes are steps on one state.
use ai_modrator.Common.{
  ℕ, ◌+◌, String, Bool, true, false, ◌&&◌, Option, none, some, List, [], ◌∷◌, str_eq, if◌then◌else◌,
}
use ai_modrator.Common.Int.{ℤ, pos, ◌+ℤ◌, ◌-ℤ◌}

-- The texts of the column `account_type`.
pub data AccountType : Type 0 where
  viewer_type system_mint system_sink : AccountType

abbrev pub type_eq : AccountType → AccountType → Bool
type_eq viewer_type viewer_type = true
type_eq system_mint system_mint = true
type_eq system_sink system_sink = true
type_eq _ _ = false

-- The columns of the constraint `uq_economy_account_creator_viewer_type`.
pub record AccountKey : Type 0 where
  pub creator_id : String
  pub viewer_channel_id : String
  pub account_type : AccountType

unfoldable pub key_eq : AccountKey → AccountKey → Bool
key_eq a b =
    str_eq a.creator_id b.creator_id
    && str_eq a.viewer_channel_id b.viewer_channel_id
    && type_eq a.account_type b.account_type

-- An id is a UUID, a number of 128 bits that the program only compares.
abbrev pub Uuid : Type 0
Uuid = ℕ

pub record Account : Type 0 where
  pub id : Uuid
  pub key : AccountKey
  pub balance : ℤ
  pub version : ℕ

-- The texts of `transaction_type` that the service writes.
pub data TransactionType : Type 0 where
  reward purchase transfer_type : TransactionType

pub record Transaction : Type 0 where
  pub id : Uuid
  pub creator_id : String
  pub transaction_type : TransactionType
  pub reference_type : Option String
  pub reference_id : Option String
  pub idempotency_key : String
  pub description : String

pub data Direction : Type 0 where
  debit credit : Direction

pub record LedgerEntry : Type 0 where
  pub id : Uuid
  pub transaction_id : Uuid
  pub account_id : Uuid
  pub direction : Direction
  pub amount : ℤ
  pub balance_after : ℤ

-- `uuid4` is the sequence of ids that the library's generator will return, and `drawn` counts
-- those it has returned.
pub record Db : Type 0 where
  pub accounts : List Account
  pub transactions : List Transaction
  pub entries : List LedgerEntry
  pub uuid4 : ℕ → Uuid
  pub drawn : ℕ

unfoldable pub find_account : AccountKey → List Account → Option Account
find_account k [] = none
find_account k (a ∷ as') = if key_eq k a.key then some a else find_account k as'

-- `get_account`. The constraint allows one row at most.
unfoldable pub get_account : AccountKey → Db → Option Account
get_account k db = find_account k db.accounts

unfoldable pub new_account : AccountKey → ℤ → Uuid → Account
new_account k initial_balance i = record { id = i; key = k; balance = initial_balance; version = 1 }

unfoldable pub insert_account : AccountKey → ℤ → Db → Account × Db
unfolding new_account
insert_account k initial_balance db =
    let a : Account = new_account k initial_balance (db.uuid4 db.drawn) in
    (a, record db { accounts = a ∷ db.accounts; drawn = db.drawn + 1 })

-- `get_or_create_account`, with its default `initial_balance=0`.
unfoldable pub get_or_create_account : AccountKey → Db → Account × Db
unfolding insert_account
get_or_create_account k db = elim (get_account k db) [
  | some a ↦ (a, db)
  | none ↦ insert_account k (pos 0) db
]

unfoldable pub find_transaction : String → String → List Transaction → Option Transaction
find_transaction creator_id key [] = none
find_transaction creator_id key (t ∷ ts) =
    if str_eq t.creator_id creator_id && str_eq t.idempotency_key key
    then some t
    else find_transaction creator_id key ts

unfoldable pub get_transaction_by_key : String → String → Db → Option Transaction
unfolding find_transaction
get_transaction_by_key creator_id key db = find_transaction creator_id key db.transactions

unfoldable pub create_transaction :
    String
    → TransactionType
    → String
    → String
    → Option String
    → Option String
    → Db
    → Transaction × Db
create_transaction creator_id kind key description reference_type reference_id db =
    let t : Transaction = record {
      id = db.uuid4 db.drawn;
      creator_id = creator_id;
      transaction_type = kind;
      reference_type = reference_type;
      reference_id = reference_id;
      idempotency_key = key;
      description = description;
    } in
    (t, record db { transactions = t ∷ db.transactions; drawn = db.drawn + 1 })

unfoldable pub create_ledger_entry : Uuid → Uuid → Direction → ℤ → ℤ → Db → Db
create_ledger_entry transaction_id account_id direction amount balance_after db = record db {
  entries =
      record {
        id = db.uuid4 db.drawn;
        transaction_id = transaction_id;
        account_id = account_id;
        direction = direction;
        amount = amount;
        balance_after = balance_after;
      }
      ∷ db.entries;
  drawn = db.drawn + 1;
}

-- `account.balance += x` on the row that the session holds for this key.
unfoldable pub add_to_balance : AccountKey → ℤ → List Account → List Account
add_to_balance k x [] = []
add_to_balance k x (a ∷ as') =
    if key_eq k a.key
    then record a { balance = a.balance +ℤ x } ∷ as'
    else a ∷ add_to_balance k x as'

-- `account.balance -= x`.
unfoldable pub take_from_balance : AccountKey → ℤ → List Account → List Account
take_from_balance k x [] = []
take_from_balance k x (a ∷ as') =
    if key_eq k a.key
    then record a { balance = a.balance -ℤ x } ∷ as'
    else a ∷ take_from_balance k x as'

-- `account.balance` read from the row, 0 where there is none.
unfoldable pub balance_of : AccountKey → List Account → ℤ
balance_of k as' = elim (find_account k as') [ none ↦ pos 0 | some a ↦ a.balance ]
