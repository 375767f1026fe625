-- ===== src/Economy/Runs.antt =====
-- Every method of `EconomyService` (app/economy/ledger.py) keeps the invariant of the tables, so it
-- holds after any sequence of calls from empty tables.
use ai_modrator.Common.{
  ℕ, String, ◌≡◌, ◌≢◌, refl, Option, none, some, List, [], ◌∷◌, str_eq, eq_iff, if_intro, arith,
  inl, inr, Option-cases,
}
use ai_modrator.Common.Int.{ℤ, pos, ◌≤ℤ◌, ltb_ℤ, leb_ℤ}
use ai_modrator.Common.Text.{or_text}
use ai_modrator.Economy.Tables.{
  AccountKey, Uuid, reward, purchase, transfer_type, Account, TransactionType, Db, find_account,
  get_account, find_transaction, get_or_create_account, get_transaction_by_key,
}
use ai_modrator.Economy.Service.{
  Reply, side_total, mint_key, sink_key, viewer_key, mint_to_viewer, earn_key, earn, pay, spend_key,
  spend, transfer_key, transfer, give, grant_reason, get_balance,
}
use ai_modrator.Economy.Rows.{find_account-key}
use ai_modrator.Economy.Create.{
  get_or_create_account-IsValid, key-get_or_create_account, transactions-get_or_create_account,
}
use ai_modrator.Economy.Audit.{IsValid, Distinct, creator_total}
use ai_modrator.Economy.Settle.{post, post-IsValid}
use ai_modrator.Economy.Book.{
  created_found, payee_apart, payer_found, minted, credited, mint_apart, mint_found,
}

mint_to_viewer-IsValid :
    (c w : String) (amount : ℤ) (reason key : String) (rt ri : Option String) (db : Db)
    → IsValid db
    → pos 1 ≤ℤ amount
    → find_transaction c key db.transactions ≡ none
    → IsValid (mint_to_viewer c w amount reason key rt ri db).1
unfolding mint_to_viewer
mint_to_viewer-IsValid c w amount reason key rt ri db v p unused =
    let vk = viewer_key c w in
    let m = minted c w amount reason key rt ri db in
    let d = credited c w amount reason key rt ri db in
    let km : m.0.key ≡ mint_key c = key-get_or_create_account (mint_key c) db in
    let kd : d.0.key ≡ vk = key-get_or_create_account vk m.1 in
    post-IsValid m.0 d.0 amount c reward key reason rt ri d.1
      (get_or_create_account-IsValid vk m.1 (get_or_create_account-IsValid (mint_key c) db v))
      (mint_found c w amount reason key rt ri db) (created_found vk m.1)
      (payee_apart m.0 vk m.1 (created_found (mint_key c) db)
        (mint_apart c w amount reason key rt ri db))
      p (λ e. ground arith) (ground arith)
      (ground (
        arith,
        transactions-get_or_create_account vk m.1,
        transactions-get_or_create_account (mint_key c) db,
      ))

post_payment-IsValid :
    (src dst : AccountKey) (amount : ℤ) (kind : TransactionType) (reason key : String)
    (rt ri : Option String) (db : Db)
    → IsValid db
    → src ≢ dst
    → src.creator_id ≡ dst.creator_id
    → pos 1 ≤ℤ amount
    → find_transaction src.creator_id key db.transactions ≡ none
    → (a : Account) → find_account src db.accounts ≡ some a
    → amount ≤ℤ a.balance
    → let d = get_or_create_account dst db in
      IsValid (post a d.0 amount src.creator_id kind key reason rt ri d.1)
post_payment-IsValid src dst amount kind reason key rt ri db v apart same p unused a e covers =
    let d = get_or_create_account dst db in
    let ka : a.key ≡ src = find_account-key src db.accounts a e in
    let row : find_account a.key db.accounts ≡ some a = cc in
    let off : a.key ≢ dst = rw ka apart in
    post-IsValid a d.0 amount src.creator_id kind key reason rt ri d.1
      (get_or_create_account-IsValid dst db v) (payer_found a dst db row off) (created_found dst db)
      (payee_apart a dst db row off) p (λ _. covers) (cc (key-get_or_create_account dst db))
      (rw (transactions-get_or_create_account dst db) unused)

pay-IsValid :
    (src dst : AccountKey) (amount : ℤ) (kind : TransactionType) (reason key : String)
    (rt ri : Option String) (db : Db)
    → IsValid db
    → src ≢ dst
    → src.creator_id ≡ dst.creator_id
    → pos 1 ≤ℤ amount
    → find_transaction src.creator_id key db.transactions ≡ none
    → IsValid (pay src dst amount kind reason key rt ri db).1
unfolding pay get_account
pay-IsValid src dst amount kind reason key rt ri db v apart same p unused =
    let d = get_or_create_account dst db in
    let paid-IsValid : (a : Account)
        → find_account src db.accounts ≡ some a
        → amount ≤ℤ a.balance
        → IsValid (post a d.0 amount src.creator_id kind key reason rt ri d.1) =
      λ a e covers.
        post_payment-IsValid src dst amount kind reason key rt ri db v apart same p unused a e
          covers in
    elim (Option-cases (find_account src db.accounts)) [
      | inl e ↦ rw (e, pay) v
      | inr (a, e) ↦
          rw (e, pay)
            (if_intro (λ (r : Reply × Db). IsValid r.1) (ltb_ℤ a.balance amount) _ _ (λ _. v)
              (λ covers. paid-IsValid a e (ground arith)))
    ]

-- A call of the service, with its arguments.
pub data Call : Type 0 where
  earn_call spend_call :
      String → String → ℤ → String → Option String → Option String → Option String → Call
  transfer_call : String → String → String → ℤ → String → Option String → Call
  give_call : String → String → String → ℤ → String → Option String → Call

unfoldable pub call : Call → Db → Reply × Db
call (earn_call c w x reason key rt ri) = earn c w x reason key rt ri
call (spend_call c w x reason key rt ri) = spend c w x reason key rt ri
call (transfer_call c f t x reason key) = transfer c f t x reason key
call (give_call c admin t x reason key) = give c admin t x reason key

unfoldable pub run : List Call → Db → Db
run [] db = db
run (e ∷ es) db = run es (call e db).1

abbrev pub empty_tables : (ℕ → Uuid) → Db
empty_tables uuid4 = record {
  accounts = [];
  transactions = [];
  entries = [];
  uuid4 = uuid4;
  drawn = 0;
}

pub earn-IsValid :
    (c w : String) (x : ℤ) (reason : String) (key rt ri : Option String) (db : Db)
    → IsValid db
    → IsValid (earn c w x reason key rt ri db).1
unfolding earn get_transaction_by_key
earn-IsValid c w x reason key rt ri db v =
    if_intro (λ (r : Reply × Db). IsValid r.1) (leb_ℤ x (pos 0)) _ _ (λ _. v)
      λ above.
        let used = or_text key (earn_key c w reason) in
        elim (Option-cases (find_transaction c used db.transactions)) [
          | inl e ↦ rw e (mint_to_viewer-IsValid c w x reason used rt ri db v (ground arith) e)
          | inr (t, e) ↦ rw e v
        ]

spend-IsValid :
    (c w : String) (x : ℤ) (reason : String) (key rt ri : Option String) (db : Db)
    → IsValid db
    → IsValid (spend c w x reason key rt ri db).1
unfolding spend get_transaction_by_key
spend-IsValid c w x reason key rt ri db v =
    if_intro (λ (r : Reply × Db). IsValid r.1) (leb_ℤ x (pos 0)) _ _ (λ _. v)
      λ above.
        let used = or_text key (spend_key c w reason) in
        elim (Option-cases (find_transaction c used db.transactions)) [
          | inl e ↦ rw e (
              pay-IsValid (viewer_key c w) (sink_key c) x purchase reason used rt ri db v
                (ground arith) refl (ground arith) e)
          | inr (t, e) ↦ rw e v
        ]

transfer-IsValid :
    (c f t : String) (x : ℤ) (reason : String) (key : Option String) (db : Db)
    → IsValid db
    → IsValid (transfer c f t x reason key db).1
unfolding transfer get_transaction_by_key
transfer-IsValid c f t x reason key db v =
    if_intro (λ (r : Reply × Db). IsValid r.1) (leb_ℤ x (pos 0)) _ _ (λ _. v)
      λ above.
        if_intro (λ (r : Reply × Db). IsValid r.1) (str_eq f t) _ _ (λ _. v)
          λ apart.
            let used = or_text key (transfer_key c f t x) in
            elim (Option-cases (find_transaction c used db.transactions)) [
              | inl e ↦ rw e (
                  pay-IsValid (viewer_key c f) (viewer_key c t) x transfer_type reason used none
                    none db v (ground (arith, eq_iff f t)) refl (ground arith) e)
              | inr (u, e) ↦ rw e v
            ]

-- A call of any method keeps the invariant, whatever it replies.
pub call-IsValid : (e : Call) (db : Db) → IsValid db → IsValid (call e db).1
unfolding call give
call-IsValid (earn_call c w x reason key rt ri) db v = earn-IsValid c w x reason key rt ri db v
call-IsValid (spend_call c w x reason key rt ri) db v = spend-IsValid c w x reason key rt ri db v
call-IsValid (transfer_call c f t x reason key) db v = transfer-IsValid c f t x reason key db v
call-IsValid (give_call c admin t x reason key) db v =
    earn-IsValid c t x (grant_reason admin reason) key (some "admin_command") (some admin) db v

run_from-IsValid : (es : List Call) (db : Db) → IsValid db → IsValid (run es db)
unfolding run
run_from-IsValid [] db v = v
run_from-IsValid (e ∷ es) db v = run_from-IsValid es (call e db).1 (call-IsValid e db v)

pub empty_tables-IsValid : (uuid4 : ℕ → Uuid) → Distinct uuid4 → IsValid (empty_tables uuid4)
unfolding find_account find_transaction side_total creator_total
empty_tables-IsValid uuid4 d = record {
  distinct = d;
  one_row = tt;
  one_use = tt;
  account_ids = λ k a h. cc;
  entry_ids = tt;
  transaction_ids = λ c key t h. cc;
  one_key = λ j k a b h1 h2 e. cc;
  no_overdraft = λ c w a h. cc;
  audited = λ k a h. cc;
  closed = λ c. refl;
  balanced = λ i. refl;
  verified = λ c key t h. cc;
}

-- After any calls of earn, spend, transfer and give from empty tables, with ids that do not
-- repeat, no viewer balance is negative, each creator's balances add up to zero, each balance is
-- what the ledger entries of the account add up to, each transaction's debits and credits agree,
-- each recorded transaction passes verify_ledger_integrity, and no account key and no idempotency
-- key of a creator stands in two rows.
pub run-IsValid :
    (es : List Call) (uuid4 : ℕ → Uuid) → Distinct uuid4 → IsValid (run es (empty_tables uuid4))
run-IsValid es uuid4 d = run_from-IsValid es (empty_tables uuid4) (empty_tables-IsValid uuid4 d)

-- After any calls from empty tables, with ids that do not repeat, `get_balance` reports no
-- negative number.
pub get_balance-run_nonneg :
    (es : List Call) (uuid4 : ℕ → Uuid) (c w : String)
    → Distinct uuid4
    → pos 0 ≤ℤ get_balance c w (run es (empty_tables uuid4))
unfolding get_balance get_account
get_balance-run_nonneg es uuid4 c w d =
    let v = run-IsValid es uuid4 d in
    elim (Option-cases (find_account (viewer_key c w) (run es (empty_tables uuid4)).accounts)) [
      | inl e ↦ rw (e, get_balance) (omega arith)
      | inr (a, e) ↦ rw (e, get_balance) (v.no_overdraft c w a e)
    ]
