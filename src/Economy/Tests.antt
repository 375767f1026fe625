-- ===== src/Economy/Tests.antt =====
-- Runs of the methods of app/economy/ledger.py on small tables, and the theorems at such inputs.
use ai_modrator.Common.{ℕ, ◌≡◌, refl, none, some, List, [], ◌∷◌}
use ai_modrator.Common.Int.{pos, negsuc, ◌+ℤ◌, ◌-ℤ◌}
use ai_modrator.Common.Text.{decimal, ◌⊕◌, or_text}
use ai_modrator.Economy.Tables.{
  Db, Transaction, reward, get_account, find_account, get_or_create_account, get_transaction_by_key,
  create_transaction, create_ledger_entry, add_to_balance, take_from_balance, balance_of, key_eq,
}
use ai_modrator.Economy.Service.{
  duplicate, viewer_key, mint_key, sink_key, get_balance, settle, mint_to_viewer, earn_key, earn,
  pay, spend_key, spend, transfer_key, transfer, give,
}
use ai_modrator.Economy.Audit.{IsValid}
use ai_modrator.Economy.Book.{
  book_of, is_used, earned, spent, earn-refines, spend-refines, transfer-refines,
}
use ai_modrator.Economy.Runs.{
  Call, earn_call, spend_call, transfer_call, call, run, empty_tables, run-IsValid,
}
use ai_modrator.Economy.Replay.{call_replayed}

abbrev ids : ℕ → ℕ
ids n = n

abbrev reward_ann : Call
reward_ann = earn_call "c1" "ann" (pos 120) "Grant" none none none

abbrev ann_buys : Call
ann_buys = spend_call "c1" "ann" (pos 50) "Mug" (some "k1") none none

abbrev ann_pays_bob : Call
ann_pays_bob = transfer_call "c1" "ann" "bob" (pos 30) "thanks" none

abbrev ann_overdraws : Call
ann_overdraws = spend_call "c1" "ann" (pos 500) "Car" none none none

abbrev calls : List Call
calls = reward_ann ∷ ann_buys ∷ ann_buys ∷ ann_pays_bob ∷ ann_overdraws ∷ []

abbrev start : Db
start = empty_tables ids

-- The repeated purchase is charged once, and the last one is refused.
balances_after_calls :
    (get_balance "c1" "ann" (run calls start) ≡ pos 40)
    × (get_balance "c1" "bob" (run calls start) ≡ pos 30)
    × (balance_of (mint_key "c1") (run calls start).accounts ≡ negsuc 119)
    × (balance_of (sink_key "c1") (run calls start).accounts ≡ pos 50)
unfolding run call earn spend transfer give pay mint_to_viewer settle get_balance get_account
    get_or_create_account get_transaction_by_key create_transaction create_ledger_entry
    add_to_balance take_from_balance balance_of key_eq find_account earn_key spend_key transfer_key
    decimal ◌⊕◌ ◌+ℤ◌ ◌-ℤ◌
balances_after_calls = (refl, refl, refl, refl)

distinct_ids : (m n : ℕ) → ids m ≡ ids n → m ≡ n
distinct_ids m n h = h

run-IsValid_example : IsValid (run calls start)
run-IsValid_example = run-IsValid calls ids distinct_ids

earn-refines_example :
    book_of (earn "c1" "ann" (pos 5) "Chat" none none none start).1 (viewer_key "c1" "ann")
    ≡ earned "c1" "ann"
        (pos 5)
        (is_used "c1" (or_text none (earn_key "c1" "ann" "Chat")) start)
        (book_of start)
        (viewer_key "c1" "ann")
earn-refines_example =
    earn-refines "c1" "ann" (pos 5) "Chat" none none none start (viewer_key "c1" "ann")

abbrev funded : Db
funded = run (reward_ann ∷ []) start

spend-refines_example :
    book_of (spend "c1" "ann" (pos 5) "Mug" (some "k") none none funded).1 (sink_key "c1")
    ≡ spent
        (viewer_key "c1" "ann")
        (sink_key "c1")
        (pos 5)
        (is_used "c1" (or_text (some "k") (spend_key "c1" "ann" "Mug")) funded)
        (book_of funded)
        (sink_key "c1")
spend-refines_example =
    spend-refines "c1" "ann" (pos 5) "Mug" (some "k") none none funded (sink_key "c1")

transfer-refines_example :
    book_of (transfer "c1" "ann" "bob" (pos 5) "hi" none funded).1 (viewer_key "c1" "bob")
    ≡ spent
        (viewer_key "c1" "ann")
        (viewer_key "c1" "bob")
        (pos 5)
        (is_used "c1" (or_text none (transfer_key "c1" "ann" "bob" (pos 5))) funded)
        (book_of funded)
        (viewer_key "c1" "bob")
transfer-refines_example =
    transfer-refines "c1" "ann" "bob" (pos 5) "hi" none funded (viewer_key "c1" "bob")

abbrev first_reward : Transaction
first_reward = record {
  id = 2;
  creator_id = "c1";
  transaction_type = reward;
  reference_type = none;
  reference_id = none;
  idempotency_key = "earn:c1:ann:Grant";
  description = "Grant";
}

call_replayed_example :
    call reward_ann (call reward_ann start).1 ≡ (duplicate first_reward, (call reward_ann start).1)
unfolding key_eq call earn mint_to_viewer create_transaction get_or_create_account get_account
    find_account get_transaction_by_key earn_key ◌⊕◌
call_replayed_example = call_replayed reward_ann start first_reward refl
