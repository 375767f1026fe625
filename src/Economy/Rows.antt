-- ===== src/Economy/Rows.antt =====
-- The laws of the account table: what a lookup finds after each write.
use mathlib.Core.Option
use ai_modrator.Common.{◌≡◌, refl, ◌↔◌, true, some, List, [], ◌∷◌, arith, eq_iff, if◌then◌else◌}
use ai_modrator.Common.Int.{ℤ, ◌+ℤ◌, ◌-ℤ◌}
use ai_modrator.Economy.Tables.{
  AccountKey, AccountType, type_eq, key_eq, Account, find_account, add_to_balance,
  take_from_balance,
}

pub type_eq_iff : (a b : AccountType) → (type_eq a b ≡ true) ↔ (a ≡ b)
type_eq_iff a b = ground arith

pub key_eq_iff : (a b : AccountKey) → (key_eq a b ≡ true) ↔ (a ≡ b)
unfolding key_eq
key_eq_iff a b = ground (
  arith,
  eq_iff a.creator_id b.creator_id,
  eq_iff a.viewer_channel_id b.viewer_channel_id,
  type_eq_iff a.account_type b.account_type,
)

pub key_eq_refl : (k : AccountKey) → key_eq k k ≡ true
key_eq_refl k = (key_eq_iff k k).1 refl

-- A row that a lookup finds has the key that was looked up.
pub find_account-key :
    (k : AccountKey) (l : List Account) (a : Account) → find_account k l ≡ some a → a.key ≡ k
unfolding find_account
find_account-key k [] a h = ground arith
find_account-key k (b ∷ l) a h = ground (arith, key_eq_iff k b.key, find_account-key k l a)

abbrev pub add_to : ℤ → Account → Account
add_to x a = record a { balance = a.balance +ℤ x }

abbrev pub take_from : ℤ → Account → Account
take_from x a = record a { balance = a.balance -ℤ x }

pub find_account-add_to_balance :
    (j k : AccountKey) (x : ℤ) (l : List Account)
    → find_account j (add_to_balance k x l)
      ≡ (if key_eq k j then Option.map (add_to x) (find_account j l) else find_account j l)
unfolding find_account add_to_balance
find_account-add_to_balance j k x [] = ground arith
find_account-add_to_balance j k x (a ∷ l) = ground (
  arith,
  key_eq_iff k j,
  key_eq_iff k a.key,
  key_eq_iff j a.key,
  find_account-add_to_balance j k x l,
)

pub find_account-take_from_balance :
    (j k : AccountKey) (x : ℤ) (l : List Account)
    → find_account j (take_from_balance k x l)
      ≡ (if key_eq k j then Option.map (take_from x) (find_account j l) else find_account j l)
unfolding find_account take_from_balance
find_account-take_from_balance j k x [] = ground arith
find_account-take_from_balance j k x (a ∷ l) = ground (
  arith,
  key_eq_iff k j,
  key_eq_iff k a.key,
  key_eq_iff j a.key,
  find_account-take_from_balance j k x l,
)
