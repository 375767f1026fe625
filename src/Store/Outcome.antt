-- ===== src/Store/Outcome.antt =====
-- What a client of `StoreService.purchase_item` (app/store/service.py) sees of a purchase.
use Prim.Native.String.{◌++◌}
use text.Mathlib.TextLemmas.{append-eq-nil_iff}
use ai_modrator.Common.{
  ℕ, suc, String, ◌≡◌, ap, ◌∙◌, Bool, true, false, ◌&&◌, Option, none, some, str_eq, eq_iff, ◌==◌,
  if◌then◌else◌, arith, inl, inr, Bool-cases,
}
use ai_modrator.Common.Int.{ℤ, pos, ◌+ℤ◌, ◌-ℤ◌, ◌≤ℤ◌, int_laws}
use ai_modrator.Common.Text.{or_text, ◌⊕◌}
use ai_modrator.Economy.Tables.{Uuid, AccountKey, balance_of, get_account, get_transaction_by_key}
use ai_modrator.Economy.Service.{spend, viewer_key, sink_key, pay}
use ai_modrator.Economy.Book
use ai_modrator.Economy.Book.{Book}
use ai_modrator.Economy.Book.{book_of, is_used, spent}
use ai_modrator.Economy.Replay.{spend_uses_key}
use ai_modrator.Store.Items.{StoreItem, Shop, grant_inventory, get_by_name, owned}
use ai_modrator.Store.Rows.{total_owned}
use ai_modrator.Store.Service.{Answer, bought, buy_key, take_one, deliver, purchase_item, is_capped}
use ai_modrator.Store.Purchase.{
  payment, sold, delivered, delivered_stock, delivered_owned, delivered_total, delivered_book,
}

-- The key of a purchase is not the empty text.
buy_key_not_empty :
    (text_of_id : Uuid → String) (c w : String) (item : StoreItem)
    → str_eq (buy_key text_of_id c w item) "" ≡ false
unfolding buy_key ◌⊕◌
buy_key_not_empty text_of_id c w item =
    elim (Bool-cases (str_eq (buy_key text_of_id c w item) "")) [
      | inl e ↦
          let nil =
            (append-eq-nil_iff {p = "buy"}).0 ((eq_iff (buy_key text_of_id c w item) "").0 e) in
          ground (arith, eq_iff "buy" "", nil.0)
      | inr e ↦ e
    ]

key_not_empty :
    (text_of_id : Uuid → String) (c w : String) (item : StoreItem) (key : Option String)
    → str_eq (or_text key (buy_key text_of_id c w item)) "" ≡ false
key_not_empty text_of_id c w item none = buy_key_not_empty text_of_id c w item
key_not_empty text_of_id c w item (some k) = ground (arith, buy_key_not_empty text_of_id c w item)

-- What is left of a stock after a sale: one less, but zero and the negative numbers, which stand
-- for an unlimited stock, stay.
abbrev pub left_of : ℤ → ℤ
left_of (pos (suc n)) = pos n
left_of stock = stock

take_one-left_of : (item : StoreItem) → take_one item ≡ record item { stock = left_of item.stock }
unfolding ◌-ℤ◌
take_one-left_of item = ground arith

-- The price moves from the viewer to the sink, unless the key of the purchase is in use.
abbrev pub charged : String → String → ℤ → Bool → Book → Book
charged c w price used book =
    if used then book else Book.paid (viewer_key c w) (sink_key c) price book

module _ (text_of_id : Uuid → String) (c w name : String) (key : Option String) (now : ℕ)
    (shop : Shop) (item : StoreItem) where
  abbrev outcome : Answer × Shop
  outcome = purchase_item text_of_id c w name key now shop

  abbrev pay_key : String
  pay_key = or_text key (buy_key text_of_id c w item)

  -- An accepted payment was due, and covered, or its key was in use.
  accepted_book :
      (payment text_of_id c w key item shop).0.ok ≡ true
      → (k : AccountKey)
      → book_of (delivered text_of_id c w name key now shop item).db k
        ≡ charged c w item.price (is_used c pay_key shop.db) (book_of shop.db) k
  unfolding spend pay is_used balance_of get_account
  accepted_book h k = ground (
    arith,
    delivered_book text_of_id c w name key now shop item k,
    key_not_empty text_of_id c w item key,
  )

  -- If `purchase_item` succeeds, the item's stock is one less unless it is unlimited and
  -- nothing else of the item changes, the viewer owns one more of it and nobody's other
  -- holdings change, and the price has moved from the viewer to the sink unless the idempotency
  -- key was in use, in which case no balance changes.
  pub purchase_item_bought :
      (d v : String) (j : Uuid) (k : AccountKey)
      → get_by_name c name shop.items ≡ some item
      → outcome.0 ≡ bought
      → (get_by_name c name outcome.1.items ≡ some (record item { stock = left_of item.stock }))
        × (owned d v j outcome.1.inventories ≡ (
            if str_eq c d && (str_eq w v && item.id == j)
            then owned d v j shop.inventories +ℤ pos 1
            else owned d v j shop.inventories))
        × (book_of outcome.1.db k
            ≡ charged c w item.price (is_used c pay_key shop.db) (book_of shop.db) k)
  purchase_item_bought d v j k found h =
      let s = sold text_of_id c w name key now shop item found h in
      rw s.same (
        delivered_stock text_of_id c w name key now shop item found
            ∙ ap some (take_one-left_of item),
        delivered_owned text_of_id c w name key now shop item d v j,
        accepted_book s.accepted k,
      )

  -- A successful purchase of an item with finite stock keeps the sum of what is left in stock
  -- and what all viewers own.
  pub purchase_item_conserves :
      (item' : StoreItem)
      → get_by_name c name shop.items ≡ some item
      → outcome.0 ≡ bought
      → pos 1 ≤ℤ item.stock
      → get_by_name c name outcome.1.items ≡ some item'
      → item'.stock +ℤ total_owned item.id outcome.1.inventories
        ≡ item.stock +ℤ total_owned item.id shop.inventories
  purchase_item_conserves item' found h finite found' =
      let s = sold text_of_id c w name key now shop item found h in
      let left : item' ≡ take_one item =
        cc (s.same, delivered_stock text_of_id c w name key now shop item found) in
      rw (s.same, left)
        (grind (int_laws, delivered_total text_of_id c w name key now shop item, finite))

  -- After a successful purchase of an item with a limit per viewer, the viewer owns no more of
  -- it than the limit.
  pub purchase_item_limit :
      get_by_name c name shop.items ≡ some item
      → outcome.0 ≡ bought
      → pos 1 ≤ℤ item.max_per_user
      → owned c w item.id outcome.1.inventories ≤ℤ item.max_per_user
  unfolding is_capped owned
  purchase_item_limit found h limited =
      let s = sold text_of_id c w name key now shop item found h in
      rw s.same (
        grind (
          int_laws,
          delivered_owned text_of_id c w name key now shop item c w item.id,
          s.not_capped,
          eq_iff c c,
          eq_iff w w,
        ))

  used_afterwards :
      (payment text_of_id c w key item shop).0.ok ≡ true
      → is_used c pay_key (delivered text_of_id c w name key now shop item).db ≡ true
  unfolding deliver grant_inventory is_used get_transaction_by_key
  used_afterwards h = ground (
    arith,
    key_not_empty text_of_id c w item key,
    spend_uses_key c w item.price ("Purchased " ++ item.name) (some pay_key) (some "store_item")
        (some (text_of_id item.id)) shop.db,
  )

module _ (text_of_id : Uuid → String) (c w name : String) (key : Option String) (now : ℕ)
    (shop : Shop) (item : StoreItem) where
  same_buy_key : buy_key text_of_id c w (take_one item) ≡ buy_key text_of_id c w item
  unfolding buy_key
  same_buy_key = ground arith

  abbrev first : Answer × Shop
  first = purchase_item text_of_id c w name key now shop

  abbrev first_key : String
  first_key = or_text key (buy_key text_of_id c w item)

  -- The same purchase once more, with the same key or again with none.
  abbrev repeated : ℕ → Answer × Shop
  repeated later = purchase_item text_of_id c w name key later first.1

  again_from :
      (later : ℕ) (k : AccountKey)
      → get_by_name c name first.1.items ≡ some (take_one item)
      → is_used c first_key first.1.db ≡ true
      → (repeated later).0 ≡ bought
      → (owned c w item.id (repeated later).1.inventories
          ≡ owned c w item.id first.1.inventories +ℤ pos 1)
        × (book_of (repeated later).1.db k ≡ book_of first.1.db k)
  again_from later k still used h2 =
      let r =
        purchase_item_bought text_of_id c w name key later first.1 (take_one item) c w item.id k
          still h2 in
      (ground (arith, r.1, eq_iff c c, eq_iff w w), ground (arith, r.2, used, same_buy_key))

  -- If a successful purchase is repeated with the same key argument and succeeds again, the
  -- viewer owns one more of the item and every balance is as it was after the first.
  pub purchase_item_repeated :
      (later : ℕ) (k : AccountKey)
      → get_by_name c name shop.items ≡ some item
      → first.0 ≡ bought
      → (repeated later).0 ≡ bought
      → (owned c w item.id (repeated later).1.inventories
          ≡ owned c w item.id first.1.inventories +ℤ pos 1)
        × (book_of (repeated later).1.db k ≡ book_of first.1.db k)
  purchase_item_repeated later k found h1 h2 =
      let s = sold text_of_id c w name key now shop item found h1 in
      let still : get_by_name c name first.1.items ≡ some (take_one item) =
        rw s.same (delivered_stock text_of_id c w name key now shop item found) in
      let used : is_used c first_key first.1.db ≡ true =
        rw s.same (used_afterwards text_of_id c w name key now shop item s.accepted) in
      again_from later k still used h2
