-- ===== src/Economy/Audit.antt =====
-- What the ledger promises, as a description apart from the code: the ids that the generator has
-- issued, what the entries add up to, and the invariant of the tables.
use ai_modrator.Common.{
  ℕ, ◌+◌, ◌≤◌, ◌<◌, String, ◌≡◌, refl, sym, ◌∙◌, ◌≢◌, true, false, none, some, List, [], ◌∷◌,
  str_eq, ◌==◌, if◌then◌else◌, All, arith,
}
use ai_modrator.Common.Int.{ℤ, pos, ◌+ℤ◌, ◌-ℤ◌, ◌≤ℤ◌}
use ai_modrator.Economy.Tables.{
  AccountKey, Uuid, Account, Transaction, debit, credit, LedgerEntry, Db, find_account,
  find_transaction,
}
use ai_modrator.Economy.Service.{viewer_key, side_total, verify_ledger_integrity}

-- `i` is one of the first `drawn` ids of the sequence.
pub record IsIssued (uuid4 : ℕ → Uuid) (drawn : ℕ) (i : Uuid) : Type 0 where
  pub index : ℕ
  pub below : index < drawn
  pub same : uuid4 index ≡ i

pub IsIssued-le :
    (uuid4 : ℕ → Uuid) (m n : ℕ) (i : Uuid) → m ≤ n → IsIssued uuid4 m i → IsIssued uuid4 n i
IsIssued-le uuid4 m n i h p = record { index = p.index; below = omega arith; same = p.same }

pub IsIssued-next : (uuid4 : ℕ → Uuid) (n : ℕ) → IsIssued uuid4 (n + 1) (uuid4 n)
IsIssued-next uuid4 n = record { index = n; below = omega arith; same = refl }

abbrev pub Distinct : (ℕ → Uuid) → Type 0
Distinct uuid4 = (m n : ℕ) → uuid4 m ≡ uuid4 n → m ≡ n

-- An id that has been issued is not the next one.
pub IsIssued-ne :
    (uuid4 : ℕ → Uuid) (n : ℕ) (i : Uuid) → Distinct uuid4 → IsIssued uuid4 n i → uuid4 n ≢ i
IsIssued-ne uuid4 n i d p e =
    let q : p.index ≡ n = d p.index n (p.same ∙ sym e) in absurd (omega (arith, p.below))

-- What the entries of an account add up to: its credits less its debits.
unfoldable pub account_net : Uuid → List LedgerEntry → ℤ
account_net i [] = pos 0
account_net i (e ∷ es) =
    let rest = account_net i es in
    if e.account_id == i
    then elim e.direction [ credit ↦ rest +ℤ e.amount | debit ↦ rest -ℤ e.amount ]
    else rest

-- The sum of a creator's balances, those of the system accounts included.
unfoldable pub creator_total : String → List Account → ℤ
creator_total c [] = pos 0
creator_total c (a ∷ as') =
    let rest = creator_total c as' in if str_eq a.key.creator_id c then rest +ℤ a.balance else rest

-- The ids of an entry have been issued.
abbrev pub EntryIssued : (ℕ → Uuid) → ℕ → LedgerEntry → Type 0
EntryIssued uuid4 drawn e =
    IsIssued uuid4 drawn e.transaction_id × IsIssued uuid4 drawn e.account_id

-- No key of an account, and no creator's idempotency key, stands in two rows.
abbrev pub OneRowEach : List Account → Type 0
OneRowEach [] = Unit
OneRowEach (a ∷ as') = (find_account a.key as' ≡ none) × OneRowEach as'

abbrev pub OneUseEach : List Transaction → Type 0
OneUseEach [] = Unit
OneUseEach (t ∷ ts) = (find_transaction t.creator_id t.idempotency_key ts ≡ none) × OneUseEach ts

pub record IsValid (db : Db) : Type 0 where
  pub distinct : Distinct db.uuid4
  pub one_row : OneRowEach db.accounts
  pub one_use : OneUseEach db.transactions
  pub account_ids :
      (k : AccountKey) (a : Account)
      → find_account k db.accounts ≡ some a
      → IsIssued db.uuid4 db.drawn a.id
  pub entry_ids : All (EntryIssued db.uuid4 db.drawn) db.entries
  pub transaction_ids :
      (c key : String) (t : Transaction)
      → find_transaction c key db.transactions ≡ some t
      → IsIssued db.uuid4 db.drawn t.id
  pub one_key :
      (j k : AccountKey) (a b : Account)
      → find_account j db.accounts ≡ some a
      → find_account k db.accounts ≡ some b
      → a.id ≡ b.id
      → j ≡ k
  pub no_overdraft :
      (c v : String) (a : Account)
      → find_account (viewer_key c v) db.accounts ≡ some a
      → pos 0 ≤ℤ a.balance
  pub audited :
      (k : AccountKey) (a : Account)
      → find_account k db.accounts ≡ some a
      → a.balance ≡ account_net a.id db.entries
  pub closed : (c : String) → creator_total c db.accounts ≡ pos 0
  pub balanced : (i : Uuid) → side_total i true db.entries ≡ side_total i false db.entries
  pub verified :
      (c key : String) (t : Transaction)
      → find_transaction c key db.transactions ≡ some t
      → verify_ledger_integrity t.id db ≡ true
