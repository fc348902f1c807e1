-- ===== src/Venue/Menu.antt =====
-- The menu that the venue publishes: internal/venue/repository/menu.go.
use avito_kitchen.Base.{
  ℕ, Bool, true, Option, none, some, List, [], ◌∷◌, Text, same, ltb, ◌&&◌, if◌then◌else◌,
  insert_row,
}
use avito_kitchen.Venue.Store.{MenuItemRow, Db, Env, RepoError, internal}
use avito_kitchen.Venue.Store
use avito_kitchen.Venue.Decide.{max_version}
use avito_kitchen.Venue.Run.{run}
use avito_kitchen.Shared.Transaction.{Result, ok, err, ◌>>=◌, ◌>>◌}

pub record MenuItem : Type 0 where
  pub external_id : Text
  pub name : Text
  pub description : Text
  pub price_amount : ℕ
  pub currency : Text
  pub is_available : Bool

pub record MenuCategory : Type 0 where
  pub external_id : Text
  pub name : Text
  pub items : List MenuItem

pub record MenuSnapshot : Type 0 where
  pub version : ℕ
  pub categories : List MenuCategory

-- `stock_quantity IS NULL OR stock_quantity > 0`.
abbrev pub is_in_stock : Option ℕ → Bool
is_in_stock none = true
is_in_stock (some n) = ltb 0 n

abbrev pub item_of_row : MenuItemRow → MenuItem
item_of_row r = record {
  external_id = r.external_id;
  name = r.name;
  description = r.description;
  price_amount = r.price_amount;
  currency = r.currency;
  is_available = r.is_available && is_in_stock r.stock_quantity;
}

-- One round of the loop over the rows: the item goes to its category, or to a new one at the end.
-- The map `categoryIndexes` holds the place of each category that stands in the snapshot.
unfoldable pub add_row : MenuItemRow → List MenuCategory → List MenuCategory
add_row r [] =
    record {
      external_id = r.category_external_id;
      name = r.category_name;
      items = item_of_row r ∷ [];
    }
    ∷ []
add_row r (c ∷ cs) =
    let rest = add_row r cs in
    if same c.external_id r.category_external_id
    then record c { items = insert_row (item_of_row r) c.items } ∷ cs
    else c ∷ rest

-- The loop.
unfoldable pub group_rows : List MenuCategory → List MenuItemRow → List MenuCategory
unfolding add_row
group_rows cs [] = cs
group_rows cs (r ∷ rs) = group_rows (add_row r cs) rs

-- `currentMenu`, over the rows in the order of the query.
unfoldable pub current_menu : Env → Db → List MenuItemRow → Result RepoError MenuSnapshot
unfolding group_rows max_version
current_menu env db rows = do
  run env Store.get_venue_menu_version
  version ← elim (max_version db.menu_versions) [ none ↦ err Store.menu_not_found | some v ↦ ok v ]
  run env Store.list_venue_menu_items
  ok (record { version = version; categories = group_rows [] rows })
