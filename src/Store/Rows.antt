-- ===== src/Store/Rows.antt =====
-- The laws of the tables of items and inventories (app/db/repositories/store_repo.py).
use mathlib.Core.Option
use ai_modrator.Common.{
  ℕ, String, ◌≡◌, refl, Bool, ◌&&◌, some, List, [], ◌∷◌, str_eq, eq_iff, ◌==◌, if◌then◌else◌, arith,
}
use ai_modrator.Common.Int.{ℤ, pos, ◌+ℤ◌, int_laws}
use ai_modrator.Common.Strip.{strip}
use ai_modrator.Economy.Tables.{Uuid}
use ai_modrator.Store.Items.{
  StoreItem, ViewerInventory, Shop, is_named, find_item, get_by_name, write_item, create_item,
  is_entry_of, get_inventory_item, add_quantity, grant_inventory, owned,
}

-- A write that leaves creator and name alone changes the row that the lookup finds, and no other.
pub find_item-write_item :
    (c n d m : String) (f : StoreItem → StoreItem) (xs : List StoreItem)
    → ((x : StoreItem) → ((f x).creator_id ≡ x.creator_id) × ((f x).name ≡ x.name))
    → find_item d m (write_item c n f xs)
      ≡ (if str_eq c d && str_eq n m then Option.map f (find_item d m xs) else find_item d m xs)
unfolding find_item write_item is_named
find_item-write_item c n d m f [] k = ground arith
find_item-write_item c n d m f (x ∷ xs) k = ground (
  arith,
  k x,
  eq_iff c d,
  eq_iff n m,
  eq_iff x.creator_id c,
  eq_iff x.name n,
  eq_iff x.creator_id d,
  eq_iff x.name m,
  find_item-write_item c n d m f xs k,
)

-- After `create_item`, a lookup by the new item's creator and name, up to the white space around
-- it, finds the item, and any other lookup finds what it found before.
pub get_by_name-create_item :
    (c n d m desc : String) (price stock limit cooldown : ℤ) (enabled : Bool) (shop : Shop)
    → let (item, shop') = create_item c n desc price stock limit cooldown enabled shop in
      get_by_name d m shop'.items
      ≡ (if str_eq c d && str_eq (strip n) (strip m) then some item else get_by_name d m shop.items)
unfolding create_item get_by_name find_item is_named
get_by_name-create_item c n d m desc price stock limit cooldown enabled shop = refl

abbrev pub more_of : ℤ → ℕ → ViewerInventory → ViewerInventory
more_of q now e = record e { quantity = e.quantity +ℤ q; last_acquired_at = now }

pub get_inventory_item-add_quantity :
    (c w d v : String) (i j : Uuid) (q : ℤ) (now : ℕ) (es : List ViewerInventory)
    → get_inventory_item d v j (add_quantity c w i q now es) ≡ (
        if str_eq c d && (str_eq w v && i == j)
        then Option.map (more_of q now) (get_inventory_item d v j es)
        else get_inventory_item d v j es)
unfolding get_inventory_item add_quantity is_entry_of
get_inventory_item-add_quantity c w d v i j q now [] = ground arith
get_inventory_item-add_quantity c w d v i j q now (e ∷ es) = ground (
  arith,
  eq_iff c d,
  eq_iff w v,
  eq_iff e.creator_id c,
  eq_iff e.viewer_channel_id w,
  eq_iff e.creator_id d,
  eq_iff e.viewer_channel_id v,
  get_inventory_item-add_quantity c w d v i j q now es,
)

-- A grant adds to what the viewer owns of the item; what others own, or of other items, stays.
pub owned-grant_inventory :
    (c w d v : String) (i j : Uuid) (q : ℤ) (now : ℕ) (shop : Shop)
    → owned d v j (grant_inventory c w i q now shop).inventories ≡ (
        if str_eq c d && (str_eq w v && i == j)
        then owned d v j shop.inventories +ℤ q
        else owned d v j shop.inventories)
unfolding owned grant_inventory get_inventory_item is_entry_of
owned-grant_inventory c w d v i j q now shop = grind (
  int_laws,
  eq_iff c d,
  eq_iff w v,
  get_inventory_item-add_quantity c w d v i j q now shop.inventories,
)

-- How many of an item all viewers own together.
unfoldable pub total_owned : Uuid → List ViewerInventory → ℤ
total_owned i [] = pos 0
total_owned i (e ∷ es) =
    let rest = total_owned i es in if e.item_id == i then rest +ℤ e.quantity else rest

total_owned-add_quantity :
    (c w : String) (i : Uuid) (q : ℤ) (now : ℕ) (es : List ViewerInventory) (e : ViewerInventory)
    → get_inventory_item c w i es ≡ some e
    → total_owned i (add_quantity c w i q now es) ≡ total_owned i es +ℤ q
unfolding total_owned add_quantity get_inventory_item is_entry_of
total_owned-add_quantity c w i q now [] e h = cc
total_owned-add_quantity c w i q now (x ∷ es) e h =
    grind (int_laws, total_owned-add_quantity c w i q now es e)

pub total_owned-grant_inventory :
    (c w : String) (i : Uuid) (q : ℤ) (now : ℕ) (shop : Shop)
    → total_owned i (grant_inventory c w i q now shop).inventories
      ≡ total_owned i shop.inventories +ℤ q
unfolding grant_inventory total_owned
total_owned-grant_inventory c w i q now shop =
    grind (arith, total_owned-add_quantity c w i q now shop.inventories)
