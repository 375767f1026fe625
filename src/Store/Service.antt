-- ===== src/Store/Service.antt =====
-- `StoreService` of app/store/service.py. The methods that only pass their arguments to the
-- repository (`list_items`, `get_item`, `create_item`, `delete_item`) are those of `Store.Items`.
use Prim.Native.String.{◌++◌}
use ai_modrator.Common.{ℕ, String, Bool, false, ◌&&◌, Option, none, some, not, if◌then◌else◌}
use ai_modrator.Common.Int.{ℤ, pos, ◌-ℤ◌, ltb_ℤ, leb_ℤ, eqb_ℤ}
use ai_modrator.Common.Strip.{strip}
use ai_modrator.Common.Text.{decimal, ◌⊕◌, or_text}
use ai_modrator.Economy.Service.{Reason, spend}
use ai_modrator.Economy.Tables.{Uuid}
use ai_modrator.Engagement.Profiles.{update_profile, record_purchase}
use ai_modrator.Store.Items.{
  StoreItem, ViewerInventory, Shop, get_by_name, write_item, update_fields, get_inventory_item,
  grant_inventory,
}

-- What `purchase_item` answers; a refusal carries what its text prints.
pub data Answer : Type 0 where
  bought : Answer
  not_available : String → Answer
  out_of_stock : String → Answer
  limit_reached : ℤ → String → Answer
  payment_refused : Reason → Answer

unfoldable pub update_item :
    String
    → String
    → Option String
    → Option ℤ
    → Option ℤ
    → Option ℤ
    → Option Bool
    → Shop
    → Option StoreItem × Shop
update_item creator_id name description price stock max_per_user enabled shop =
    elim (get_by_name creator_id name shop.items) [
      | none ↦ (none, shop)
      | some item ↦ (
        some (update_fields description price stock max_per_user enabled item),
        record shop {
          items =
              write_item creator_id (strip name)
                (update_fields description price stock max_per_user enabled) shop.items;
        },
      )
    ]

-- `inv and inv.quantity >= item.max_per_user`, for an item with a limit.
abbrev pub at_limit : ℤ → Option ViewerInventory → Bool
at_limit limit none = false
at_limit limit (some inv) = leb_ℤ limit inv.quantity

unfoldable pub is_capped : String → String → StoreItem → Shop → Bool
is_capped creator_id viewer_channel_id item shop =
    ltb_ℤ (pos 0) item.max_per_user
    && at_limit item.max_per_user
        (get_inventory_item creator_id viewer_channel_id item.id shop.inventories)

unfoldable pub buy_key : (Uuid → String) → String → String → StoreItem → String
buy_key text_of_id creator_id viewer_channel_id item =
    "buy" ⊕ creator_id ⊕ viewer_channel_id ⊕ text_of_id item.id ⊕ decimal item.price

abbrev pub take_one : StoreItem → StoreItem
take_one item =
    if ltb_ℤ (pos 0) item.stock then record item { stock = item.stock -ℤ pos 1 } else item

-- Steps 5 to 7, after the payment has been accepted.
unfoldable pub deliver : String → String → String → StoreItem → ℕ → Shop → Shop
deliver creator_id viewer_channel_id item_name item now shop =
    let granted =
      grant_inventory creator_id viewer_channel_id item.id (pos 1) now
        (record shop { items = write_item creator_id (strip item_name) take_one shop.items }) in
    record granted {
      profiles = update_profile creator_id viewer_channel_id (record_purchase now) granted.profiles;
    }

-- Step 4 and what follows it.
unfoldable pub settle_purchase :
    (Uuid → String) → String → String → String → String → StoreItem → ℕ → Shop → Answer × Shop
settle_purchase text_of_id creator_id viewer_channel_id item_name key item now shop =
    let (reply, db') =
      spend creator_id viewer_channel_id item.price ("Purchased " ++ item.name) (some key)
        (some "store_item") (some (text_of_id item.id)) shop.db in
    let paid : Shop = record shop { db = db' } in
    if reply.ok
    then (bought, deliver creator_id viewer_channel_id item_name item now paid)
    else (payment_refused reply.reason, paid)

-- `text_of_id` is the text of a UUID.
unfoldable pub purchase_item :
    (Uuid → String) → String → String → String → Option String → ℕ → Shop → Answer × Shop
purchase_item text_of_id creator_id viewer_channel_id item_name key now shop =
    elim (get_by_name creator_id item_name shop.items) [
      | none ↦ (not_available item_name, shop)
      | some item ↦
          if not item.enabled
          then (not_available item_name, shop)
          else if eqb_ℤ item.stock (pos 0)
          then (out_of_stock item.name, shop)
          else if is_capped creator_id viewer_channel_id item shop
          then (limit_reached item.max_per_user item.name, shop)
          else settle_purchase text_of_id creator_id viewer_channel_id item_name
              (or_text key (buy_key text_of_id creator_id viewer_channel_id item)) item now shop
    ]
