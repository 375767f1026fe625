-- ===== src/Integrity/Audits.antt =====
-- `IntegrityCheckService` of app/services/integrity.py. A query is a filter of the table's rows; the
-- groups of `GROUP BY` are listed in the order of their first rows. A time is a number of
-- microseconds.
use ai_modrator.Common.{
  ℕ, ◌+◌, Bool, true, false, ◌&&◌, ◌||◌, none, some, List, [], ◌∷◌, length, ltb, ◌==◌,
  if◌then◌else◌,
}
use ai_modrator.Common.Int.{ℤ, pos, ◌+ℤ◌, ltb_ℤ, eqb_ℤ}
use ai_modrator.Economy.Service.{side_total}
use ai_modrator.Economy.Tables.{Uuid, Account, viewer_type, type_eq, LedgerEntry, Db}
use ai_modrator.Store.Items.{StoreItem, ViewerInventory, Shop}
use ai_modrator.Streams.Sessions.{StreamSession}
use ai_modrator.Streams.Transitions.{active, same_status}

-- The categories of violations, with the row that each is about and the sums that it prints.
pub data IntegrityViolation : Type 0 where
  ledger_imbalance : Uuid → ℤ → ℤ → IntegrityViolation
  negative_balance : Account → IntegrityViolation
  orphaned_inventory : ViewerInventory → IntegrityViolation
  stale_stream_session : StreamSession → IntegrityViolation

pub data Severity : Type 0 where
  warning error critical : Severity

unfoldable pub severity_of : IntegrityViolation → Severity
severity_of (ledger_imbalance i debits credits) = critical
severity_of (negative_balance a) = critical
severity_of (orphaned_inventory inv) = error
severity_of (stale_stream_session s) = warning

unfoldable pub has_id : Uuid → List Uuid → Bool
has_id i [] = false
has_id i (j ∷ js) = j == i || has_id i js

-- The groups of `group_by(transaction_id)`.
unfoldable pub groups : List LedgerEntry → List Uuid
groups [] = []
groups (e ∷ es) =
    let rest = groups es in if has_id e.transaction_id rest then rest else e.transaction_id ∷ rest

pub record LedgerStats : Type 0 where
  pub total_transactions_audited : ℕ
  pub imbalanced_transactions : ℕ
  pub total_debits_global : ℤ
  pub total_credits_global : ℤ

unfoldable pub imbalances : List Uuid → List LedgerEntry → List IntegrityViolation
imbalances [] es = []
imbalances (i ∷ is) es =
    let rest = imbalances is es in
    let debits = side_total i false es in
    let credits = side_total i true es in
    if eqb_ℤ debits credits then rest else ledger_imbalance i debits credits ∷ rest

unfoldable pub global_total : Bool → List Uuid → List LedgerEntry → ℤ
global_total on_credit [] es = pos 0
global_total on_credit (i ∷ is) es = side_total i on_credit es +ℤ global_total on_credit is es

unfoldable pub audit_economy_ledger : Db → List IntegrityViolation × LedgerStats
audit_economy_ledger db =
    let rows = groups db.entries in
    let violations = imbalances rows db.entries in
    (
      violations,
      record {
        total_transactions_audited = length rows;
        imbalanced_transactions = length violations;
        total_debits_global = global_total false rows db.entries;
        total_credits_global = global_total true rows db.entries;
      },
    )

unfoldable pub negative_accounts : List Account → List IntegrityViolation
negative_accounts [] = []
negative_accounts (a ∷ as') =
    let rest = negative_accounts as' in
    if type_eq a.key.account_type viewer_type && ltb_ℤ a.balance (pos 0)
    then negative_balance a ∷ rest
    else rest

-- The violations, the number of accounts, and the number of negative ones.
unfoldable pub audit_account_balances : Db → List IntegrityViolation × ℕ × ℕ
audit_account_balances db =
    let violations = negative_accounts db.accounts in
    (violations, length db.accounts, length violations)

unfoldable pub has_item : Uuid → List StoreItem → Bool
has_item i [] = false
has_item i (item ∷ items) = item.id == i || has_item i items

-- The rows of the outer join that no item matches.
unfoldable pub orphans : List StoreItem → List ViewerInventory → List IntegrityViolation
orphans items [] = []
orphans items (inv ∷ invs) =
    let rest = orphans items invs in
    if has_item inv.item_id items then rest else orphaned_inventory inv ∷ rest

unfoldable pub audit_store_inventory : Shop → List IntegrityViolation × ℕ
audit_store_inventory shop =
    let violations = orphans shop.items shop.inventories in (violations, length violations)

-- `last_activity_at < now - 15 minutes`, false for a row without the time.
unfoldable pub is_stale : ℕ → StreamSession → Bool
is_stale now s =
    same_status s.status active
    && elim s.last_activity_at [ none ↦ false | some at ↦ ltb (at + 900000000) now ]

unfoldable pub stale_sessions : ℕ → List StreamSession → List IntegrityViolation
stale_sessions now [] = []
stale_sessions now (s ∷ ss) =
    let rest = stale_sessions now ss in
    if is_stale now s then stale_stream_session s ∷ rest else rest

unfoldable pub audit_stale_stream_sessions : ℕ → List StreamSession → List IntegrityViolation × ℕ
audit_stale_stream_sessions now ss =
    let violations = stale_sessions now ss in (violations, length violations)

abbrev pub extend : List IntegrityViolation → List IntegrityViolation → List IntegrityViolation
extend [] vs = vs
extend (u ∷ us) vs = u ∷ extend us vs

pub record IntegrityAuditReport : Type 0 where
  pub timestamp : ℕ
  pub is_valid : Bool
  pub violations : List IntegrityViolation
  pub ledger : LedgerStats
  pub balances : ℕ × ℕ
  pub store : ℕ
  pub sessions : ℕ

abbrev pub is_empty : List IntegrityViolation → Bool
is_empty [] = true
is_empty (v ∷ vs) = false

unfoldable pub run_full_audit : ℕ → Shop → List StreamSession → IntegrityAuditReport
run_full_audit now shop ss =
    let (ledger_violations, ledger_stats) = audit_economy_ledger shop.db in
    let (balance_violations, audited, negative) = audit_account_balances shop.db in
    let (store_violations, store_stats) = audit_store_inventory shop in
    let (session_violations, session_stats) = audit_stale_stream_sessions now ss in
    let violations =
      extend ledger_violations
        (extend balance_violations (extend store_violations session_violations)) in
    record {
      timestamp = now;
      is_valid = is_empty violations;
      violations = violations;
      ledger = ledger_stats;
      balances = (audited, negative);
      store = store_stats;
      sessions = session_stats;
    }
