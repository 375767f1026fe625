-- ===== src/Integrity/Tests.antt =====
-- Audits after a grant and a payment, and the theorems at such inputs.
use ai_modrator.Common.{◌≡◌, refl, ◌↔◌, true, false, none, some, List, [], ◌∷◌}
use ai_modrator.Common.Int.{pos, ◌+ℤ◌}
use ai_modrator.Economy.Runs.{Call, earn_call, spend_call, run, empty_tables}
use ai_modrator.Economy.Service.{side_total}
use ai_modrator.Economy.Tables.{Uuid, debit, Db}
use ai_modrator.Integrity.Audits.{
  ledger_imbalance, audit_economy_ledger, audit_account_balances, imbalances, groups, has_id,
}
use ai_modrator.Integrity.Reports.{audit_economy_ledger-exact, run-audits}

abbrev calls : List Call
calls =
    earn_call "c" "ann" (pos 120) "Grant" none none none
    ∷ spend_call "c" "ann" (pos 50) "Coffee" (some "k") none none
    ∷ []

abbrev half_entered : Db
half_entered = record (empty_tables (λ n. n)) {
  entries =
      record {
        id = 1;
        transaction_id = 7;
        account_id = 2;
        direction = debit;
        amount = pos 5;
        balance_after = pos 0;
      }
      ∷ [];
}

-- A debit without its credit is reported.
half_entered_found : (audit_economy_ledger half_entered).0 ≡ ledger_imbalance 7 (pos 5) (pos 0) ∷ []
unfolding audit_economy_ledger imbalances groups has_id side_total ◌+ℤ◌
half_entered_found = refl

audit_economy_ledger-exact_example : (audit_economy_ledger half_entered).0 ≡ [] ↔ (
    (i : Uuid) → side_total i true half_entered.entries ≡ side_total i false half_entered.entries)
audit_economy_ledger-exact_example = audit_economy_ledger-exact half_entered

run-audits_example :
    ((audit_economy_ledger (run calls (empty_tables (λ n. n)))).0 ≡ [])
    × ((audit_account_balances (run calls (empty_tables (λ n. n)))).0 ≡ [])
run-audits_example = run-audits calls (λ n. n) (λ m n e. e)
