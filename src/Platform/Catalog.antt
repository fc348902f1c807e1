-- ===== src/Platform/Catalog.antt =====
-- Reading venues and menus: internal/platform/repository/catalog.go.
use avito_kitchen.Base.{
  Option, ℕ, ◌+◌, ◌-◌, Bool, true, false, none, some, List, [], ◌∷◌, map, Text, same, ltb, ◌&&◌,
  if◌then◌else◌, coalesce, find_row, select, insert_row, order_by, take, length, get_elem?,
}
use avito_kitchen.Platform.Store.{VenueRow, CategoryRow, MenuItemRow, Db, Env, RepoError, internal}
use avito_kitchen.Platform.Store
use avito_kitchen.Platform.Run.{run, cast_uuid}
use avito_kitchen.Platform.Partner.{is_venue}
use avito_kitchen.Shared.Transaction.{Result, ok, err, ◌>>=◌, ◌>>◌}

pub record Venue : Type 0 where
  pub id : Text
  pub name : Text
  pub description : Text
  pub address : Text
  pub currency : Text
  pub minimum_order_amount : ℕ
  pub is_accepting_orders : Bool

-- `NextCursor` is "" where there is no further page.
pub record VenuePage : Type 0 where
  pub items : List Venue
  pub next_cursor : Text

pub record VenueListQuery : Type 0 where
  pub search : Text
  pub after_id : Text
  pub limit : ℕ

abbrev pub venue_of_row : VenueRow → Venue
venue_of_row v = record {
  id = v.id;
  name = v.name;
  description = v.description;
  address = v.address;
  currency = v.currency;
  minimum_order_amount = v.minimum_order_amount;
  is_accepting_orders = v.is_accepting_orders;
}

-- `NextCursor` and `Items` from the rows of the query, which asks for one more than the limit.
unfoldable pub page_of : ℕ → List Venue → VenuePage
page_of limit venues =
    if ltb limit (length venues)
    then record {
      items = take limit venues;
      next_cursor = elim (get_elem? venues (limit - 1)) [ none ↦ [] | some v ↦ v.id ];
    }
    else record { items = venues; next_cursor = [] }

-- `afterID`, as the server reads it: NULL for "", or a `uuid`.
abbrev pub read_after : Env → Text → Result RepoError (Option Text)
read_after env [] = ok none
read_after env (c ∷ t) = do id ← cast_uuid env (c ∷ t); ok (some id)

-- `($2::uuid IS NULL OR id > $2::uuid)`, for an order of identifiers that the server has.
abbrev pub is_after : (Text → Text → Bool) → Option Text → VenueRow → Bool
is_after above none v = true
is_after above (some id) v = above v.id id

-- `(*Repository).ListVenues`, over the rows of `venues` in the order of their identifiers.
-- `matches` is the server's test of a row against the search.
unfoldable pub list_venues :
    Env
    → (Text → Text → Bool)
    → (Text → VenueRow → Bool)
    → VenueListQuery
    → List VenueRow
    → Result RepoError VenuePage
unfolding page_of
list_venues env above matches query rows = do
  run env Store.list_venues
  after ← read_after env query.after_id
  ok (
      page_of query.limit (
        map venue_of_row (
          take (query.limit + 1)
            (select (λ v. matches query.search v && is_after above after v) rows))))

-- `(*Repository).GetVenue`.
unfoldable pub get_venue : Env → Db → Text → Result RepoError Venue
get_venue env db venue_id = do
  run env Store.get_venue
  id ← cast_uuid env venue_id
  row ← elim (find_row (is_venue id) db.venues) [ none ↦ err Store.venue_not_found | some v ↦ ok v ]
  ok (venue_of_row row)

-- `domain.MenuItem` and the rest, as a customer reads them.
pub record MenuItem : Type 0 where
  pub id : Text
  pub external_id : Text
  pub name : Text
  pub description : Text
  pub price_amount : ℕ
  pub currency : Text
  pub is_available : Bool

pub record MenuCategory : Type 0 where
  pub external_id : Text
  pub name : Text
  pub items : List MenuItem

pub record Menu : Type 0 where
  pub venue_id : Text
  pub version : ℕ
  pub updated_at : ℕ
  pub categories : List MenuCategory

abbrev pub item_of_row : MenuItemRow → MenuItem
item_of_row r = record {
  id = r.id;
  external_id = r.external_id;
  name = r.name;
  description = r.description;
  price_amount = r.price_amount;
  currency = r.currency;
  is_available = r.is_available;
}

abbrev pub category_of_row : CategoryRow → MenuCategory
category_of_row r = record { external_id = r.external_id; name = r.name; items = [] }

-- One round of the loop over the items: the item goes to the category of its row.
unfoldable pub add_item : Text → MenuItem → List MenuCategory → Result RepoError (List MenuCategory)
add_item category item [] = err (internal Store.inactive_category)
add_item category item (c ∷ cs) = elim (same c.external_id category) [
  | true ↦ ok (record c { items = insert_row item c.items } ∷ cs)
  | false ↦ do rest ← add_item category item cs; ok (c ∷ rest)
]

-- That loop, over pairs of the category's external identifier and the row.
unfoldable pub add_items :
    List (Text × MenuItemRow) → List MenuCategory → Result RepoError (List MenuCategory)
unfolding add_item
add_items [] cs = ok cs
add_items ((category, r) ∷ rows) cs = do
  cs' ← add_item category (item_of_row r) cs
  add_items rows cs'

-- The join of `menu_items` with the active categories of the venue.
unfoldable pub joined : Text → List CategoryRow → List MenuItemRow → List (Text × MenuItemRow)
joined venue_id categories [] = []
joined venue_id categories (i ∷ is) =
    let rest = joined venue_id categories is in
    elim (find_row (λ (c : CategoryRow). same c.id i.category_id && c.is_active) categories) [
      | none ↦ rest
      | some c ↦ if same i.venue_id venue_id && i.is_active then (c.external_id, i) ∷ rest else rest
    ]

-- `getMenu`: the categories by position, and the items by position within them.
unfoldable pub get_menu : Env → Db → Text → Result RepoError Menu
unfolding add_items joined
get_menu env db venue_id = do
  run env Store.get_menu_version
  id ← cast_uuid env venue_id
  row ← elim (find_row (is_venue id) db.venues) [ none ↦ err Store.venue_not_found | some v ↦ ok v ]
  version ← elim row.menu_version [ none ↦ err Store.menu_not_found | some n ↦ ok n ]
  run env Store.list_menu_categories
  let categories =
      order_by CategoryRow.position
        (select (λ c. same c.venue_id id && c.is_active) db.menu_categories)
  run env Store.list_menu_items
  filled ←
      add_items (joined id db.menu_categories (order_by MenuItemRow.position db.menu_items))
        (map category_of_row categories)
  ok (record {
    venue_id = venue_id;
    version = version;
    updated_at = coalesce row.menu_updated_at 0;
    categories = filled;
  })
