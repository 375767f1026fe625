-- ===== src/Store/Books.antt =====
-- The store leaves the books of the economy in order (app/store/service.py).
use Prim.Native.String.{◌++◌}
use ai_modrator.Common.{ℕ, String, Option, some, if_intro, inl, inr, Option-cases, not}
use ai_modrator.Common.Int.{ℤ, pos, eqb_ℤ}
use ai_modrator.Common.Text.{or_text}
use ai_modrator.Economy.Audit.{IsValid}
use ai_modrator.Economy.Create.{draw-IsValid}
use ai_modrator.Economy.Runs.{spend_call, call, call-IsValid}
use ai_modrator.Economy.Tables.{Uuid}
use ai_modrator.Store.Items.{
  StoreItem, Shop, get_by_name, get_inventory_item, grant_inventory, write_item,
}
use ai_modrator.Store.Service.{
  Answer, buy_key, deliver, is_capped, settle_purchase, purchase_item, take_one,
}
use ai_modrator.Store.Purchase.{payment}
use ai_modrator.Common.Strip.{strip}

grant_inventory-IsValid :
    (c w : String) (i : Uuid) (q : ℤ) (now : ℕ) (shop : Shop)
    → IsValid shop.db
    → IsValid (grant_inventory c w i q now shop).db
unfolding grant_inventory
grant_inventory-IsValid c w i q now shop v =
    elim (Option-cases (get_inventory_item c w i shop.inventories)) [
      | inl e ↦ rw (e, grant_inventory) (draw-IsValid shop.db v)
      | inr (x, e) ↦ rw (e, grant_inventory) v
    ]

module _ (text_of_id : Uuid → String) (c w name : String) (key : Option String) (now : ℕ)
    (shop : Shop) (v : IsValid shop.db) where
  payment-IsValid : (item : StoreItem) → IsValid (payment text_of_id c w key item shop).1
  unfolding call
  payment-IsValid item =
      call-IsValid
        (spend_call c w item.price ("Purchased " ++ item.name)
          (some (or_text key (buy_key text_of_id c w item))) (some "store_item")
          (some (text_of_id item.id)))
        shop.db v

  settled-IsValid :
      (item : StoreItem)
      → IsValid
          (settle_purchase text_of_id c w name
            (or_text key (buy_key text_of_id c w item))
            item
            now
            shop).1.db
  unfolding settle_purchase deliver
  settled-IsValid item =
      if_intro (λ (r : Answer × Shop). IsValid r.1.db) (payment text_of_id c w key item shop).0.ok _
        _
        (λ _.
          grant_inventory-IsValid c w item.id (pos 1) now
            (record shop {
              db = (payment text_of_id c w key item shop).1;
              items = write_item c (strip name) take_one shop.items;
            })
            (payment-IsValid item))
        (λ _. payment-IsValid item)

  -- A purchase keeps the economy's books valid.
  pub purchase_item-IsValid : IsValid (purchase_item text_of_id c w name key now shop).1.db
  unfolding purchase_item
  purchase_item-IsValid = elim (Option-cases (get_by_name c name shop.items)) [
    | inl e ↦ rw (e, purchase_item) v
    | inr (item, e) ↦
        rw (e, purchase_item)
          (if_intro (λ (r : Answer × Shop). IsValid r.1.db) (not item.enabled) _ _ (λ _. v)
            (λ _.
              if_intro (λ (r : Answer × Shop). IsValid r.1.db) (eqb_ℤ item.stock (pos 0)) _ _
                (λ _. v)
                (λ _.
                  if_intro (λ (r : Answer × Shop). IsValid r.1.db) (is_capped c w item shop) _ _
                    (λ _. v) (λ _. settled-IsValid item))))
  ]
