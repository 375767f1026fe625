-- ===== src/Store/Tests.antt =====
-- Purchases in a small shop, and the theorems at such inputs.
use ai_modrator.Common.{
  ℕ, String, ◌≡◌, refl, ◌≢◌, true, none, some, [], ◌∷◌, ◌&&◌, arith, str_eq, ◌==◌, if◌then◌else◌,
}
use ai_modrator.Common.Int.{pos, negsuc, ◌≤ℤ◌, ◌+ℤ◌, ◌-ℤ◌}
use ai_modrator.Common.Strip.{strip}
use ai_modrator.Common.Text.{decimal, ◌⊕◌, or_text}
use ai_modrator.Economy.Tables.{
  get_account, find_account, get_or_create_account, get_transaction_by_key, create_transaction,
  create_ledger_entry, add_to_balance, take_from_balance, balance_of, key_eq,
}
use ai_modrator.Economy.Service.{
  viewer_key, settle, mint_to_viewer, earn_key, earn, pay, spend_key, spend,
}
use ai_modrator.Engagement.Profiles.{update_profile, is_profile_of}
use ai_modrator.Economy.Audit.{IsValid}
use ai_modrator.Economy.Book.{book_of, is_used}
use ai_modrator.Economy.Runs.{earn_call, call, run, empty_tables, run-IsValid}
use ai_modrator.Store.Items.{
  StoreItem, Shop, find_item, get_by_name, write_item, is_named, grant_inventory,
  get_inventory_item, is_entry_of, owned,
}
use ai_modrator.Store.Rows.{total_owned}
use ai_modrator.Store.Service.{bought, buy_key, is_capped, deliver, settle_purchase, purchase_item}
use ai_modrator.Store.Outcome.{
  charged, purchase_item_bought, purchase_item_conserves, purchase_item_limit,
  purchase_item_repeated,
}

abbrev text_of_id : ℕ → String
text_of_id i = decimal (pos i)

abbrev coffee : StoreItem
coffee = record {
  id = 100;
  creator_id = "c1";
  name = "Coffee";
  description = "";
  price = pos 50;
  stock = pos 2;
  max_per_user = pos 2;
  cooldown_seconds = pos 0;
  enabled = true;
}

abbrev shop : Shop
shop = record {
  db = run (earn_call "c1" "ann" (pos 120) "Grant" none none none ∷ []) (empty_tables (λ n. n));
  items = coffee ∷ [];
  inventories = [];
  profiles = [];
}

coffee_found : get_by_name "c1" " Coffee" shop.items ≡ some coffee
unfolding get_by_name find_item strip is_named
coffee_found = refl

abbrev endless : StoreItem
endless = record coffee { stock = negsuc 0 }

-- A purchase leaves an unlimited stock of -1 as it is.
endless_stays :
    let after =
      (purchase_item text_of_id "c1" "ann" "Coffee" none 7
        (record shop { items = endless ∷ [] })).1 in
    get_by_name "c1" "Coffee" after.items ≡ some endless
unfolding purchase_item settle_purchase get_by_name find_item strip is_named is_capped
    get_inventory_item buy_key decimal ◌⊕◌ run call earn mint_to_viewer settle get_account
    get_or_create_account get_transaction_by_key create_transaction create_ledger_entry
    add_to_balance take_from_balance balance_of key_eq find_account earn_key spend pay spend_key
    ◌+ℤ◌ ◌-ℤ◌ deliver grant_inventory write_item update_profile
endless_stays = refl

abbrev after_first : Shop
after_first = (purchase_item text_of_id "c1" "ann" " Coffee" none 7 shop).1

first_bought : (purchase_item text_of_id "c1" "ann" " Coffee" none 7 shop).0 ≡ bought
unfolding purchase_item settle_purchase get_by_name find_item strip is_named is_capped
    get_inventory_item buy_key decimal ◌⊕◌ run call earn mint_to_viewer settle get_account
    get_or_create_account get_transaction_by_key create_transaction create_ledger_entry
    add_to_balance take_from_balance balance_of key_eq find_account earn_key spend pay spend_key
    ◌+ℤ◌ ◌-ℤ◌ deliver grant_inventory write_item update_profile
first_bought = refl

second_bought : (purchase_item text_of_id "c1" "ann" " Coffee" none 8 after_first).0 ≡ bought
unfolding purchase_item settle_purchase get_by_name find_item strip is_named is_capped
    get_inventory_item buy_key decimal ◌⊕◌ run call earn mint_to_viewer settle get_account
    get_or_create_account get_transaction_by_key create_transaction create_ledger_entry
    add_to_balance take_from_balance balance_of key_eq find_account earn_key spend pay spend_key
    ◌+ℤ◌ ◌-ℤ◌ is_entry_of is_profile_of deliver grant_inventory write_item update_profile
second_bought = refl

purchase_item_bought_example :
    (get_by_name "c1" " Coffee" after_first.items ≡ some (record coffee { stock = pos 1 }))
    × (owned "c1" "ann" 100 after_first.inventories ≡ (
        if str_eq "c1" "c1" && (str_eq "ann" "ann" && 100 == 100)
        then owned "c1" "ann" 100 shop.inventories +ℤ pos 1
        else owned "c1" "ann" 100 shop.inventories))
    × (book_of after_first.db (viewer_key "c1" "ann")
        ≡ charged "c1" "ann"
            (pos 50)
            (is_used "c1" (or_text none (buy_key text_of_id "c1" "ann" coffee)) shop.db)
            (book_of shop.db)
            (viewer_key "c1" "ann"))
purchase_item_bought_example =
    purchase_item_bought text_of_id "c1" "ann" " Coffee" none 7 shop coffee "c1" "ann" 100
      (viewer_key "c1" "ann") coffee_found first_bought

purchase_item_conserves_example :
    pos 1 +ℤ total_owned 100 after_first.inventories
    ≡ coffee.stock +ℤ total_owned 100 shop.inventories
purchase_item_conserves_example =
    purchase_item_conserves text_of_id "c1" "ann" " Coffee" none 7 shop coffee
      (record coffee { stock = pos 1 }) coffee_found first_bought (ground arith)
      purchase_item_bought_example.0

purchase_item_limit_example : owned "c1" "ann" 100 after_first.inventories ≤ℤ pos 2
purchase_item_limit_example =
    purchase_item_limit text_of_id "c1" "ann" " Coffee" none 7 shop coffee coffee_found first_bought
      (ground arith)

purchase_item_repeated_example :
    let after_second = (purchase_item text_of_id "c1" "ann" " Coffee" none 8 after_first).1 in
    (owned "c1" "ann" 100 after_second.inventories
      ≡ owned "c1" "ann" 100 after_first.inventories +ℤ pos 1)
    × (book_of after_second.db (viewer_key "c1" "ann")
        ≡ book_of after_first.db (viewer_key "c1" "ann"))
purchase_item_repeated_example =
    purchase_item_repeated text_of_id "c1" "ann" " Coffee" none 7 shop coffee 8
      (viewer_key "c1" "ann") coffee_found first_bought second_bought

tea_refused : (purchase_item text_of_id "c1" "ann" "Tea" none 7 shop).0 ≢ bought
unfolding purchase_item get_by_name find_item strip is_named
tea_refused = cc

distinct_ids : (m n : ℕ) → m ≡ n → m ≡ n
distinct_ids m n h = h

shop-IsValid : IsValid shop.db
shop-IsValid =
    run-IsValid (earn_call "c1" "ann" (pos 120) "Grant" none none none ∷ []) (λ n. n) distinct_ids
