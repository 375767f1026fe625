-- ===== src/Integrity/Reports.antt =====
-- The audits of app/services/integrity.py find what they look for, and after the economy's
-- operations the ledger and the balances have nothing to find.
use mathlib.Core.Path.{subst}
use ai_modrator.Common.{
  ℕ, String, ◌≡◌, refl, sym, ◌∙◌, ◌↔◌, inl, inr, Bool, true, false, some, List, [], ◌∷◌, ◌==◌,
  arith, Bool-cases,
}
use ai_modrator.Common.Int.{ℤ, pos, ◌≤ℤ◌, eqb_ℤ, int_laws}
use ai_modrator.Economy.Audit.{Distinct, OneRowEach}
use ai_modrator.Economy.Runs.{Call, run, run-IsValid, empty_tables}
use ai_modrator.Economy.Rows.{key_eq_iff, type_eq_iff}
use ai_modrator.Economy.Service.{side_total, viewer_key}
use ai_modrator.Economy.Tables.{Uuid, Account, viewer_type, type_eq, LedgerEntry, Db, find_account}
use ai_modrator.Integrity.Audits.{
  has_id, groups, imbalances, audit_economy_ledger, negative_accounts, audit_account_balances,
}

eqb_sound : (x y : ℤ) → eqb_ℤ x y ≡ true → x ≡ y
eqb_sound x y e = grind (int_laws, e)

side_total-absent :
    (i : Uuid) (on_credit : Bool) (es : List LedgerEntry)
    → has_id i (groups es) ≡ false
    → side_total i on_credit es ≡ pos 0
unfolding side_total has_id groups
side_total-absent i on_credit [] h = refl
side_total-absent i on_credit (e ∷ es) h = ground (arith, side_total-absent i on_credit es)

imbalances-member :
    (i : Uuid) (is : List Uuid) (es : List LedgerEntry)
    → imbalances is es ≡ []
    → has_id i is ≡ true
    → side_total i false es ≡ side_total i true es
unfolding imbalances has_id
imbalances-member i [] es e h = ground arith
imbalances-member i (j ∷ is) es e h =
    elim (Bool-cases (eqb_ℤ (side_total j false es) (side_total j true es))) [
      | inr b ↦ ground (arith, b, e)
      | inl b ↦ elim (Bool-cases (j == i)) [
        | inl c ↦
            let same : j ≡ i = ground (arith, c) in
            let totals : side_total j false es ≡ side_total j true es = eqb_sound _ _ b in
            subst (λ x. side_total x false es ≡ side_total x true es) same totals
        | inr c ↦ imbalances-member i is es (ground (arith, b, e)) (ground (arith, c, h))
      ]
    ]

imbalances-none :
    (is : List Uuid) (es : List LedgerEntry)
    → ((i : Uuid) → side_total i true es ≡ side_total i false es)
    → imbalances is es ≡ []
unfolding imbalances
imbalances-none [] es h = refl
imbalances-none (i ∷ is) es h = ground (arith, h i, imbalances-none is es h)

-- The audit of the ledger finds no violation exactly if the debits and the credits of every
-- transaction id add up to the same.
pub audit_economy_ledger-exact :
    (db : Db)
    → (audit_economy_ledger db).0 ≡ []
      ↔ ((i : Uuid) → side_total i true db.entries ≡ side_total i false db.entries)
unfolding audit_economy_ledger
audit_economy_ledger-exact db = (
  λ clean. λ i. elim (Bool-cases (has_id i (groups db.entries))) [
    | inl b ↦ sym (imbalances-member i (groups db.entries) db.entries clean b)
    | inr b ↦ side_total-absent i true db.entries b ∙ sym (side_total-absent i false db.entries b)
  ],
  λ balanced. imbalances-none (groups db.entries) db.entries balanced,
)

negative_accounts-none :
    (as' : List Account)
    → OneRowEach as'
    → ((c v : String) (a : Account)
        → find_account (viewer_key c v) as' ≡ some a
        → pos 0 ≤ℤ a.balance)
    → negative_accounts as' ≡ []
unfolding negative_accounts find_account
negative_accounts-none [] one h = refl
negative_accounts-none (a ∷ as') one h =
    let vk = viewer_key a.key.creator_id a.key.viewer_channel_id in
    let rest =
      negative_accounts-none as' one.1 (λ c v b found.
        h c v b (ground (arith, one.0, key_eq_iff (viewer_key c v) a.key, found))) in
    elim (Bool-cases (type_eq a.key.account_type viewer_type)) [
      | inr e ↦ ground (arith, e, rest)
      | inl e ↦ ground (
        arith,
        e,
        rest,
        h a.key.creator_id a.key.viewer_channel_id a
            (ground (arith, e, key_eq_iff vk a.key, type_eq_iff a.key.account_type viewer_type)),
      )
    ]

-- After any calls of earn, spend, transfer and give from empty tables, with ids that do not
-- repeat, the audits of the ledger and of the balances find no violation.
pub run-audits :
    (es : List Call) (uuid4 : ℕ → Uuid)
    → Distinct uuid4
    → ((audit_economy_ledger (run es (empty_tables uuid4))).0 ≡ [])
      × ((audit_account_balances (run es (empty_tables uuid4))).0 ≡ [])
unfolding audit_account_balances
run-audits es uuid4 d =
    let db = run es (empty_tables uuid4) in
    let v = run-IsValid es uuid4 d in
    (
      (audit_economy_ledger-exact db).1 v.balanced,
      negative_accounts-none db.accounts v.one_row v.no_overdraft,
    )
