-- ===== src/Economy/Moves.antt =====
-- What taking from one balance and adding to another (step 4 of the methods of `EconomyService`,
-- app/economy/ledger.py) does to the table of accounts and to a creator's total.
use ai_modrator.Common.{
  ℕ, String, ◌≡◌, refl, ◌≢◌, Bool, some, List, [], ◌∷◌, str_eq, if◌then◌else◌, All, arith,
}
use ai_modrator.Common.Int.{ℤ, pos, ◌+ℤ◌, ◌-ℤ◌, int_laws}
use ai_modrator.Economy.Tables.{
  AccountKey, key_eq, Uuid, Account, LedgerEntry, find_account, add_to_balance, take_from_balance,
}
use ai_modrator.Economy.Service.{side_total}
use ai_modrator.Economy.Rows.{
  key_eq_iff, add_to, take_from, find_account-add_to_balance, find_account-take_from_balance,
}
use ai_modrator.Economy.Audit.{IsIssued-ne, Distinct, creator_total, EntryIssued, OneRowEach}

-- A change of one balance leaves the rows one to a key.
OneRowEach-add_to_balance :
    (k : AccountKey) (x : ℤ) (l : List Account) → OneRowEach l → OneRowEach (add_to_balance k x l)
unfolding add_to_balance
OneRowEach-add_to_balance k x [] h = tt
OneRowEach-add_to_balance k x (a ∷ l) h =
    ground (arith, OneRowEach-add_to_balance k x l h.1, find_account-add_to_balance a.key k x l)

OneRowEach-take_from_balance :
    (k : AccountKey) (x : ℤ) (l : List Account)
    → OneRowEach l
    → OneRowEach (take_from_balance k x l)
unfolding take_from_balance
OneRowEach-take_from_balance k x [] h = tt
OneRowEach-take_from_balance k x (a ∷ l) h =
    ground
      (arith, OneRowEach-take_from_balance k x l h.1, find_account-take_from_balance a.key k x l)

-- A creator's total moves by the amount when an account of theirs does.
creator_total-add_to_balance :
    (c : String) (k : AccountKey) (x : ℤ) (l : List Account) (a : Account)
    → find_account k l ≡ some a
    → creator_total c (add_to_balance k x l)
      ≡ (if str_eq k.creator_id c then creator_total c l +ℤ x else creator_total c l)
unfolding creator_total add_to_balance find_account
creator_total-add_to_balance c k x [] a h = cc
creator_total-add_to_balance c k x (b ∷ l) a h =
    grind (int_laws, key_eq_iff k b.key, creator_total-add_to_balance c k x l a)

creator_total-take_from_balance :
    (c : String) (k : AccountKey) (x : ℤ) (l : List Account) (a : Account)
    → find_account k l ≡ some a
    → creator_total c (take_from_balance k x l)
      ≡ (if str_eq k.creator_id c then creator_total c l -ℤ x else creator_total c l)
unfolding creator_total take_from_balance find_account
creator_total-take_from_balance c k x [] a h = cc
creator_total-take_from_balance c k x (b ∷ l) a h =
    grind (int_laws, key_eq_iff k b.key, creator_total-take_from_balance c k x l a)

-- No entry names a transaction that has not been issued.
pub side_total_fresh :
    (uuid4 : ℕ → Uuid) (n : ℕ) (side : Bool) (es : List LedgerEntry)
    → Distinct uuid4
    → All (EntryIssued uuid4 n) es
    → side_total (uuid4 n) side es ≡ pos 0
unfolding side_total
side_total_fresh uuid4 n side [] d p = refl
side_total_fresh uuid4 n side (e ∷ es) d p =
    ground
      (arith, IsIssued-ne uuid4 n e.transaction_id d p.0.0, side_total_fresh uuid4 n side es d p.1)

-- The accounts after the two changes of a settlement.
abbrev pub moved : Account → Account → ℤ → List Account → List Account
moved src dst amount l = add_to_balance dst.key amount (take_from_balance src.key amount l)

module _ (src dst : Account) (amount : ℤ) (l : List Account)
    (found_src : find_account src.key l ≡ some src) (found_dst : find_account dst.key l ≡ some dst)
    (apart : src.key ≢ dst.key) where
  pub find_account-moved :
      (j : AccountKey)
      → find_account j (moved src dst amount l) ≡ (
          if key_eq src.key j
          then some (take_from amount src)
          else if key_eq dst.key j
          then some (add_to amount dst)
          else find_account j l)
  find_account-moved j = ground (
    arith,
    find_account-add_to_balance j dst.key amount (take_from_balance src.key amount l),
    find_account-take_from_balance j src.key amount l,
    key_eq_iff src.key j,
    key_eq_iff dst.key j,
  )

  -- What one account pays the other receives, so a creator's total stays.
  pub creator_total-moved :
      (c : String)
      → src.key.creator_id ≡ dst.key.creator_id
      → creator_total c (moved src dst amount l) ≡ creator_total c l
  creator_total-moved c same =
      let d : find_account dst.key (take_from_balance src.key amount l) ≡ some dst = ground (
        arith,
        find_account-take_from_balance dst.key src.key amount l,
        key_eq_iff src.key dst.key,
      ) in
      grind (
        int_laws,
        creator_total-add_to_balance c dst.key amount (take_from_balance src.key amount l) dst d,
        creator_total-take_from_balance c src.key amount l src found_src,
        same,
      )

  pub OneRowEach-moved : OneRowEach l → OneRowEach (moved src dst amount l)
  OneRowEach-moved h =
      OneRowEach-add_to_balance dst.key amount _ (OneRowEach-take_from_balance src.key amount l h)
