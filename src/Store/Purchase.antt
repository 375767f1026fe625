-- ===== src/Store/Purchase.antt =====
-- What `purchase_item` of app/store/service.py does to the shop, on success and on refusal.
use Prim.Native.String.{◌++◌}
use ai_modrator.Common.{
  ℕ, String, ◌≡◌, ◌≢◌, true, false, ◌&&◌, Option, some, str_eq, eq_iff, ◌==◌, if◌then◌else◌, arith,
  inl, inr, Option-cases,
}
use ai_modrator.Common.Int.{pos, ◌+ℤ◌, eqb_ℤ}
use ai_modrator.Common.Strip.{strip}
use ai_modrator.Common.Text.{or_text}
use ai_modrator.Economy.Tables.{Uuid, Db, AccountKey, balance_of}
use ai_modrator.Economy.Service.{Reply, spend, spend_key, viewer_key, sink_key}
use ai_modrator.Economy.Book.{book_of, is_used, spent, spend-refines}
use ai_modrator.Economy.Replay.{spend_refused}
use ai_modrator.Store.Items.{StoreItem, Shop, get_by_name, write_item, grant_inventory, owned}
use ai_modrator.Store.Rows.{
  find_item-write_item, owned-grant_inventory, total_owned, total_owned-grant_inventory,
}
use ai_modrator.Store.Service.{
  Answer, bought, buy_key, take_one, deliver, settle_purchase, purchase_item, is_capped,
}

module _ (text_of_id : Uuid → String) (c w name : String) (key : Option String) (now : ℕ)
    (shop : Shop) where
  abbrev outcome : Answer × Shop
  outcome = purchase_item text_of_id c w name key now shop

  -- A purchase that does not succeed leaves the shop as it was.
  pub purchase_item_refused : outcome.0 ≢ bought → outcome.1 ≡ shop
  unfolding purchase_item settle_purchase
  purchase_item_refused h = elim (Option-cases (get_by_name c name shop.items)) [
    | inl e ↦ rw (e, purchase_item)
    | inr (item, e) ↦ ground (
      arith,
      e,
      spend_refused c w item.price ("Purchased " ++ item.name)
          (some (or_text key (buy_key text_of_id c w item))) (some "store_item")
          (some (text_of_id item.id)) shop.db,
    )
  ]

-- The payment of a purchase, and the shop that it leaves.
abbrev pub payment :
    (Uuid → String) → String → String → Option String → StoreItem → Shop → Reply × Db
payment text_of_id c w key item shop =
    spend c w item.price ("Purchased " ++ item.name)
      (some (or_text key (buy_key text_of_id c w item))) (some "store_item")
      (some (text_of_id item.id)) shop.db

-- What has to hold for a purchase to succeed, and the shop afterwards.
pub record Sold (text_of_id : Uuid → String) (c w name : String) (key : Option String) (now : ℕ)
    (shop : Shop) (item : StoreItem) (shop' : Shop) : Type 0 where
  pub is_enabled : item.enabled ≡ true
  pub in_stock : eqb_ℤ item.stock (pos 0) ≡ false
  pub not_capped : is_capped c w item shop ≡ false
  pub accepted : (payment text_of_id c w key item shop).0.ok ≡ true
  pub same :
      shop'
      ≡ deliver c w name item now (record shop { db = (payment text_of_id c w key item shop).1 })

pub sold :
    (text_of_id : Uuid → String) (c w name : String) (key : Option String) (now : ℕ) (shop : Shop)
    (item : StoreItem)
    → get_by_name c name shop.items ≡ some item
    → (purchase_item text_of_id c w name key now shop).0 ≡ bought
    → Sold text_of_id c w name key now shop item (purchase_item text_of_id c w name key now shop).1
unfolding purchase_item settle_purchase
sold text_of_id c w name key now shop item found h = ground (arith, found)

take_one-keeps_key :
    (x : StoreItem) → ((take_one x).creator_id ≡ x.creator_id) × ((take_one x).name ≡ x.name)
take_one-keeps_key x = ground arith

module _ (text_of_id : Uuid → String) (c w name : String) (key : Option String) (now : ℕ)
    (shop : Shop) (item : StoreItem) where
  abbrev pub paid : Shop
  paid = record shop { db = (payment text_of_id c w key item shop).1 }

  abbrev pub delivered : Shop
  delivered = deliver c w name item now paid

  pub delivered_stock :
      get_by_name c name shop.items ≡ some item
      → get_by_name c name delivered.items ≡ some (take_one item)
  unfolding deliver grant_inventory get_by_name
  delivered_stock found = ground (
    arith,
    found,
    find_item-write_item c (strip name) c (strip name) take_one shop.items take_one-keeps_key,
    eq_iff c c,
    eq_iff (strip name) (strip name),
  )

  pub delivered_owned :
      (d v : String) (j : Uuid)
      → owned d v j delivered.inventories ≡ (
          if str_eq c d && (str_eq w v && item.id == j)
          then owned d v j shop.inventories +ℤ pos 1
          else owned d v j shop.inventories)
  unfolding deliver
  delivered_owned d v j =
      owned-grant_inventory c w d v item.id j (pos 1) now
        (record paid { items = write_item c (strip name) take_one shop.items })

  pub delivered_total :
      total_owned item.id delivered.inventories ≡ total_owned item.id shop.inventories +ℤ pos 1
  unfolding deliver
  delivered_total =
      total_owned-grant_inventory c w item.id (pos 1) now
        (record paid { items = write_item c (strip name) take_one shop.items })

  pub delivered_book :
      (k : AccountKey)
      → book_of delivered.db k
        ≡ spent
            (viewer_key c w)
            (sink_key c)
            item.price
            (is_used c
              (or_text
                (some (or_text key (buy_key text_of_id c w item)))
                (spend_key c w ("Purchased " ++ item.name)))
              shop.db)
            (book_of shop.db)
            k
  unfolding deliver grant_inventory balance_of
  delivered_book k = ground (
    arith,
    spend-refines c w item.price ("Purchased " ++ item.name)
        (some (or_text key (buy_key text_of_id c w item))) (some "store_item")
        (some (text_of_id item.id)) shop.db k,
  )
