-- ===== src/Economy/Create.antt =====
-- Looking an account up, or inserting it with balance 0, keeps the invariant and moves no money.
use ai_modrator.Common.{
  ℕ, ◌+◌, ◌≤◌, ◌≡◌, refl, none, some, List, [], ◌∷◌, inl, inr, if◌then◌else◌, All, arith,
  Option-cases,
}
use ai_modrator.Common.Int.{pos, int_laws}
use ai_modrator.Economy.Tables.{
  AccountKey, key_eq, Uuid, LedgerEntry, Db, find_account, get_account, new_account, insert_account,
  get_or_create_account, balance_of,
}
use ai_modrator.Economy.Service.{verify_ledger_integrity}
use ai_modrator.Economy.Rows.{key_eq_iff, find_account-key}
use ai_modrator.Economy.Audit.{
  IsIssued-le, IsIssued-next, IsIssued-ne, Distinct, account_net, creator_total, EntryIssued,
  IsValid,
}

pub EntryIssued-le :
    (uuid4 : ℕ → Uuid) (m n : ℕ) (es : List LedgerEntry)
    → m ≤ n
    → All (EntryIssued uuid4 m) es
    → All (EntryIssued uuid4 n) es
EntryIssued-le uuid4 m n [] h p = tt
EntryIssued-le uuid4 m n (e ∷ es) h p = (
  (IsIssued-le uuid4 m n e.transaction_id h p.0.0, IsIssued-le uuid4 m n e.account_id h p.0.1),
  EntryIssued-le uuid4 m n es h p.1,
)

-- No entry names an id that has not been issued.
pub account_net_fresh :
    (uuid4 : ℕ → Uuid) (n : ℕ) (es : List LedgerEntry)
    → Distinct uuid4
    → All (EntryIssued uuid4 n) es
    → account_net (uuid4 n) es ≡ pos 0
unfolding account_net
account_net_fresh uuid4 n [] d p = refl
account_net_fresh uuid4 n (e ∷ es) d p =
    ground (arith, IsIssued-ne uuid4 n e.account_id d p.0.1, account_net_fresh uuid4 n es d p.1)

module _ (k : AccountKey) (db : Db) (absent : find_account k db.accounts ≡ none)
    (v : IsValid db) where
  insert_account-IsValid : IsValid (insert_account k (pos 0) db).1
  unfolding insert_account new_account find_account creator_total verify_ledger_integrity
  insert_account-IsValid = record {
    distinct = v.distinct;
    one_row = (absent, v.one_row);
    one_use = v.one_use;
    account_ids =
        λ j a h. grind (arith, v.account_ids j a, IsIssued-le, IsIssued-next db.uuid4 db.drawn);
    entry_ids =
        EntryIssued-le db.uuid4 db.drawn (db.drawn + 1) db.entries (omega arith) v.entry_ids;
    transaction_ids = λ c key t h.
        IsIssued-le db.uuid4 db.drawn (db.drawn + 1) t.id (omega arith)
          (v.transaction_ids c key t h);
    one_key = λ i j a b h1 h2 e. ground (
      arith,
      key_eq_iff i k,
      key_eq_iff j k,
      v.one_key i j a b,
      v.account_ids i a,
      v.account_ids j b,
      IsIssued-ne db.uuid4 db.drawn a.id v.distinct,
      IsIssued-ne db.uuid4 db.drawn b.id v.distinct,
    );
    no_overdraft = λ c w a h. ground (arith, v.no_overdraft c w a);
    audited = λ j a h. ground (
      arith,
      v.audited j a,
      account_net_fresh db.uuid4 db.drawn db.entries v.distinct v.entry_ids,
    );
    closed = λ c. grind (int_laws, v.closed c);
    balanced = v.balanced;
    verified = v.verified;
  }

module _ (k : AccountKey) (db : Db) where
  pub get_or_create_account-IsValid : IsValid db → IsValid (get_or_create_account k db).1
  unfolding get_or_create_account get_account
  get_or_create_account-IsValid v = elim (Option-cases (find_account k db.accounts)) [
    | inl e ↦ rw (e, get_or_create_account) (insert_account-IsValid k db e v)
    | inr (a, e) ↦ rw (e, get_or_create_account) v
  ]

  -- Afterwards the key is there, and the other keys are as before.
  pub find_account-get_or_create_account :
      (j : AccountKey)
      → find_account j (get_or_create_account k db).1.accounts
        ≡ (if key_eq j k then some (get_or_create_account k db).0 else find_account j db.accounts)
  unfolding get_or_create_account get_account insert_account find_account
  find_account-get_or_create_account j = ground (arith, key_eq_iff j k)

  pub key-get_or_create_account : (get_or_create_account k db).0.key ≡ k
  unfolding get_or_create_account get_account insert_account new_account
  key-get_or_create_account = grind (arith, find_account-key k db.accounts)

  -- The money is where it was.
  pub balance_of-get_or_create_account :
      (j : AccountKey)
      → balance_of j (get_or_create_account k db).1.accounts ≡ balance_of j db.accounts
  unfolding get_or_create_account get_account insert_account new_account find_account balance_of
  balance_of-get_or_create_account j = ground (arith, key_eq_iff j k)

  pub entries-get_or_create_account : (get_or_create_account k db).1.entries ≡ db.entries
  unfolding get_or_create_account insert_account
  entries-get_or_create_account = ground arith

  pub transactions-get_or_create_account :
      (get_or_create_account k db).1.transactions ≡ db.transactions
  unfolding get_or_create_account insert_account
  transactions-get_or_create_account = ground arith

-- Drawing an id for a row of another table keeps the invariant.
pub draw-IsValid : (db : Db) → IsValid db → IsValid (record db { drawn = db.drawn + 1 })
unfolding verify_ledger_integrity
draw-IsValid db v = record {
  distinct = v.distinct;
  one_row = v.one_row;
  one_use = v.one_use;
  account_ids = λ k a h.
      IsIssued-le db.uuid4 db.drawn (db.drawn + 1) a.id (omega arith) (v.account_ids k a h);
  entry_ids = EntryIssued-le db.uuid4 db.drawn (db.drawn + 1) db.entries (omega arith) v.entry_ids;
  transaction_ids = λ c key t h.
      IsIssued-le db.uuid4 db.drawn (db.drawn + 1) t.id (omega arith) (v.transaction_ids c key t h);
  one_key = v.one_key;
  no_overdraft = v.no_overdraft;
  audited = v.audited;
  closed = v.closed;
  balanced = v.balanced;
  verified = v.verified;
}
