-- ===== src/Store/Items.antt =====
-- The tables of app/db/models/store.py and `StoreRepository` (app/db/repositories/store_repo.py).
-- A stock or a limit of -1 is unlimited.
use ai_modrator.Common.{
  ℕ, ◌+◌, String, Bool, true, false, ◌&&◌, Option, none, some, List, [], ◌∷◌, str_eq, ◌==◌,
  if◌then◌else◌,
}
use ai_modrator.Common.Int.{ℤ, pos, ◌+ℤ◌}
use ai_modrator.Common.Strip.{strip}
use ai_modrator.Economy.Tables.{Uuid, Db}
use ai_modrator.Engagement.Profiles.{Profile}

pub record StoreItem : Type 0 where
  pub id : Uuid
  pub creator_id : String
  pub name : String
  pub description : String
  pub price : ℤ
  pub stock : ℤ
  pub max_per_user : ℤ
  pub cooldown_seconds : ℤ
  pub enabled : Bool

pub record ViewerInventory : Type 0 where
  pub id : Uuid
  pub creator_id : String
  pub viewer_channel_id : String
  pub item_id : Uuid
  pub quantity : ℤ
  pub first_acquired_at : ℕ
  pub last_acquired_at : ℕ

-- The tables that a purchase reads and writes; the ids come from the sequence of `db`.
pub record Shop : Type 0 where
  pub db : Db
  pub items : List StoreItem
  pub inventories : List ViewerInventory
  pub profiles : List Profile

unfoldable pub is_named : String → String → StoreItem → Bool
is_named creator_id name item = str_eq item.creator_id creator_id && str_eq item.name name

unfoldable pub find_item : String → String → List StoreItem → Option StoreItem
find_item creator_id name [] = none
find_item creator_id name (x ∷ xs) =
    if is_named creator_id name x then some x else find_item creator_id name xs

unfoldable pub get_by_name : String → String → List StoreItem → Option StoreItem
get_by_name creator_id name = find_item creator_id (strip name)

unfoldable pub get_by_id : Uuid → List StoreItem → Option StoreItem
get_by_id i [] = none
get_by_id i (x ∷ xs) = if x.id == i then some x else get_by_id i xs

-- A write to the row that a lookup by creator and name finds.
unfoldable pub write_item :
    String → String → (StoreItem → StoreItem) → List StoreItem → List StoreItem
write_item creator_id name f [] = []
write_item creator_id name f (x ∷ xs) =
    if is_named creator_id name x then f x ∷ xs else x ∷ write_item creator_id name f xs

unfoldable pub create_item :
    String → String → String → ℤ → ℤ → ℤ → ℤ → Bool → Shop → StoreItem × Shop
create_item creator_id name description price stock max_per_user cooldown_seconds enabled shop =
    let item : StoreItem = record {
      id = shop.db.uuid4 shop.db.drawn;
      creator_id = creator_id;
      name = strip name;
      description = description;
      price = price;
      stock = stock;
      max_per_user = max_per_user;
      cooldown_seconds = cooldown_seconds;
      enabled = enabled;
    } in
    (
      item,
      record shop { db = record shop.db { drawn = shop.db.drawn + 1 }; items = item ∷ shop.items },
    )

-- `if x is not None: item.field = x`.
abbrev pub given {ℓ} : {A : Type ℓ} → Option A → A → A
given none old = old
given (some new) old = new

unfoldable pub update_fields :
    Option String → Option ℤ → Option ℤ → Option ℤ → Option Bool → StoreItem → StoreItem
update_fields description price stock max_per_user enabled item = record item {
  description = given description item.description;
  price = given price item.price;
  stock = given stock item.stock;
  max_per_user = given max_per_user item.max_per_user;
  enabled = given enabled item.enabled;
}

-- The row that a lookup by creator and name finds is deleted.
unfoldable pub drop_item : String → String → List StoreItem → List StoreItem
drop_item creator_id name [] = []
drop_item creator_id name (x ∷ xs) =
    if is_named creator_id name x then xs else x ∷ drop_item creator_id name xs

-- The relationship of an item to its inventory rows has the cascade "all, delete-orphan".
unfoldable pub drop_entries : Uuid → List ViewerInventory → List ViewerInventory
drop_entries item_id [] = []
drop_entries item_id (e ∷ es) =
    let rest = drop_entries item_id es in if e.item_id == item_id then rest else e ∷ rest

unfoldable pub delete_item : String → String → Shop → Bool × Shop
delete_item creator_id name shop = elim (get_by_name creator_id name shop.items) [
  | none ↦ (false, shop)
  | some item ↦ (
    true,
    record shop {
      items = drop_item creator_id (strip name) shop.items;
      inventories = drop_entries item.id shop.inventories;
    },
  )
]

unfoldable pub is_entry_of : String → String → Uuid → ViewerInventory → Bool
is_entry_of creator_id viewer_channel_id item_id inv =
    str_eq inv.creator_id creator_id
    && str_eq inv.viewer_channel_id viewer_channel_id
    && inv.item_id == item_id

unfoldable pub get_inventory_item :
    String → String → Uuid → List ViewerInventory → Option ViewerInventory
get_inventory_item creator_id viewer_channel_id item_id [] = none
get_inventory_item creator_id viewer_channel_id item_id (e ∷ es) =
    if is_entry_of creator_id viewer_channel_id item_id e
    then some e
    else get_inventory_item creator_id viewer_channel_id item_id es

-- `inv.quantity += quantity; inv.last_acquired_at = now` on the row that the lookup found.
unfoldable pub add_quantity :
    String → String → Uuid → ℤ → ℕ → List ViewerInventory → List ViewerInventory
add_quantity creator_id viewer_channel_id item_id quantity now [] = []
add_quantity creator_id viewer_channel_id item_id quantity now (e ∷ es) =
    if is_entry_of creator_id viewer_channel_id item_id e
    then record e { quantity = e.quantity +ℤ quantity; last_acquired_at = now } ∷ es
    else e ∷ add_quantity creator_id viewer_channel_id item_id quantity now es

unfoldable pub grant_inventory : String → String → Uuid → ℤ → ℕ → Shop → Shop
grant_inventory creator_id viewer_channel_id item_id quantity now shop =
    elim (get_inventory_item creator_id viewer_channel_id item_id shop.inventories) [
      | none ↦ record shop {
        db = record shop.db { drawn = shop.db.drawn + 1 };
        inventories =
            record {
              id = shop.db.uuid4 shop.db.drawn;
              creator_id = creator_id;
              viewer_channel_id = viewer_channel_id;
              item_id = item_id;
              quantity = quantity;
              first_acquired_at = now;
              last_acquired_at = now;
            }
            ∷ shop.inventories;
      }
      | some _ ↦ record shop {
        inventories =
            add_quantity creator_id viewer_channel_id item_id quantity now shop.inventories;
      }
    ]

-- How many of an item a viewer owns.
unfoldable pub owned : String → String → Uuid → List ViewerInventory → ℤ
owned creator_id viewer_channel_id item_id es =
    elim (get_inventory_item creator_id viewer_channel_id item_id es) [
      | none ↦ pos 0
      | some e ↦ e.quantity
    ]
