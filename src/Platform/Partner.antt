-- ===== src/Platform/Partner.antt =====
-- The menu and the availability of a venue: internal/platform/repository/partner.go.
use avito_kitchen.Base.{
  ℕ, suc, Bool, true, false, Option, none, some, List, [], ◌∷◌, Text, ◌==◌, same, ltb, ◌&&◌,
  if◌then◌else◌, coalesce, find_row, update_where, count_where, insert_row,
}
use avito_kitchen.Platform.Store.{VenueRow, CategoryRow, MenuItemRow, Db, Env, RepoError, internal}
use avito_kitchen.Platform.Store
use avito_kitchen.Platform.Run.{Tx, run, cast_uuid, transaction}
use avito_kitchen.Shared.Transaction.{Result, ok, err, guard, Outcome, ◌>>=◌, ◌>>◌}

-- `domain.MenuItem`, `domain.MenuCategory` and `domain.MenuSnapshot` as the partner sends them.
pub record MenuItem : Type 0 where
  pub external_id : Text
  pub name : Text
  pub description : Text
  pub price_amount : ℕ
  pub currency : Text
  pub is_available : Bool

pub record MenuCategory : Type 0 where
  pub external_id : Text
  pub name : Text
  pub items : List MenuItem

pub record MenuSnapshot : Type 0 where
  pub version : ℕ
  pub categories : List MenuCategory

pub record AvailabilityUpdate : Type 0 where
  pub is_accepting_orders : Bool
  pub reason : Text

abbrev pub is_venue : Text → VenueRow → Bool
is_venue id v = same v.id id

-- What the versions say of a snapshot: to be stored, or known already.
pub data Freshness : Type 0 where
  fresh known : Freshness

-- `if currentVersion != nil { … }`.
unfoldable pub check_version : Option ℕ → Text → ℕ → Text → Result RepoError Freshness
check_version none hash version snapshot_hash = ok fresh
check_version (some current) hash version snapshot_hash =
    if ltb version current
    then err Store.stale_menu_version
    else if version == current
    then (if same snapshot_hash hash then ok known else err Store.menu_version_conflict)
    else ok fresh

-- `SET is_active = false, is_available = false, updated_at = now()`.
abbrev pub item_off : ℕ → MenuItemRow → MenuItemRow
item_off now r = record r { is_active = false; is_available = false; updated_at = now }

abbrev pub category_off : ℕ → CategoryRow → CategoryRow
category_off now r = record r { is_active = false; updated_at = now }

-- `ON CONFLICT (venue_id, external_id)`.
abbrev pub is_same_category : Text → Text → CategoryRow → Bool
is_same_category venue_id external_id r = same r.venue_id venue_id && same r.external_id external_id

abbrev pub is_same_item : Text → Text → MenuItemRow → Bool
is_same_item venue_id external_id r = same r.venue_id venue_id && same r.external_id external_id

abbrev pub new_category : Env → Text → Text → ℕ → MenuCategory → CategoryRow
new_category env id venue_id position c = record {
  id = id;
  venue_id = venue_id;
  external_id = c.external_id;
  name = c.name;
  position = position;
  is_active = true;
  updated_at = env.now;
}

-- `DO UPDATE SET name = EXCLUDED.name, position = EXCLUDED.position, is_active = true, …`.
abbrev pub refreshed_category : Env → ℕ → MenuCategory → CategoryRow → CategoryRow
refreshed_category env position c r = record r {
  name = c.name;
  position = position;
  is_active = true;
  updated_at = env.now;
}

-- The upsert of a category, with the identifier that `RETURNING id` gives.
unfoldable pub upsert_category : Env → Text → Text → ℕ → MenuCategory → Db → Text × Db
upsert_category env id venue_id position c db =
    elim (find_row (is_same_category venue_id c.external_id) db.menu_categories) [
      | none ↦ (
        id,
        record db {
          menu_categories = insert_row (new_category env id venue_id position c) db.menu_categories;
        },
      )
      | some r ↦ (
        r.id,
        record db {
          menu_categories =
              update_where (is_same_category venue_id c.external_id)
                (refreshed_category env position c) db.menu_categories;
        },
      )
    ]

abbrev pub new_item : Env → Text → Text → Text → ℕ → MenuItem → MenuItemRow
new_item env id venue_id category_id position i = record {
  id = id;
  venue_id = venue_id;
  category_id = category_id;
  external_id = i.external_id;
  name = i.name;
  description = i.description;
  price_amount = i.price_amount;
  currency = i.currency;
  is_available = i.is_available;
  is_active = true;
  position = position;
  updated_at = env.now;
}

-- `DO UPDATE SET` keeps the identifier of the row, so that orders go on naming it.
unfoldable pub upsert_item :
    Env → Text → Text → Text → ℕ → MenuItem → List MenuItemRow → List MenuItemRow
upsert_item env id venue_id category_id position i rows =
    elim (find_row (is_same_item venue_id i.external_id) rows) [
      | none ↦ insert_row (new_item env id venue_id category_id position i) rows
      | some _ ↦
          update_where (is_same_item venue_id i.external_id)
            (λ r. new_item env r.id venue_id category_id position i) rows
    ]

-- The loop over the items of a category. `ids` gives the identifiers that the loops generate.
unfoldable pub upsert_items :
    Env → (ℕ → Option Text) → Text → Text → ℕ → List MenuItem → Db → Result RepoError Db
unfolding upsert_item
upsert_items env ids venue_id category_id position [] db = ok db
upsert_items env ids venue_id category_id position (i ∷ is) db = do
  id ← elim (ids position) [ none ↦ err (internal Store.generate_uuid) | some id ↦ ok id ]
  run env Store.upsert_menu_item
  upsert_items env ids venue_id category_id (suc position) is
      (record db { menu_items = upsert_item env id venue_id category_id position i db.menu_items })

-- The loop over the categories. `item_ids` gives the identifiers for the items of each.
unfoldable pub upsert_categories :
    Env → (ℕ → ℕ → Option Text) → Text → ℕ → List MenuCategory → Db → Result RepoError Db
unfolding upsert_category upsert_items
upsert_categories env item_ids venue_id position [] db = ok db
upsert_categories env item_ids venue_id position (c ∷ cs) db = do
  id ← elim (env.uuid position) [ none ↦ err (internal Store.generate_uuid) | some id ↦ ok id ]
  run env Store.upsert_menu_category
  let stored = upsert_category env id venue_id position c db
  db' ← upsert_items env (item_ids position) venue_id stored.0 0 c.items stored.1
  upsert_categories env item_ids venue_id (suc position) cs db'

-- `SET menu_version = $2, menu_snapshot_hash = $3, menu_updated_at = now(), updated_at = now()`.
abbrev pub versioned : ℕ → ℕ → Text → VenueRow → VenueRow
versioned now version hash v = record v {
  menu_version = some version;
  menu_snapshot_hash = some hash;
  menu_updated_at = some now;
  updated_at = now;
}

-- What `ReplaceMenu` writes for a version that is new.
unfoldable pub store_menu :
    Env → (ℕ → ℕ → Option Text) → Text → MenuSnapshot → Text → Db → Tx (Unit {0})
unfolding upsert_categories
store_menu env item_ids venue_id snapshot snapshot_hash db = do
  run env Store.deactivate_menu_items
  run env Store.deactivate_menu_categories
  db₁ ← upsert_categories env item_ids venue_id 0 snapshot.categories (record db {
    menu_items = update_where (λ r. same r.venue_id venue_id) (item_off env.now) db.menu_items;
    menu_categories =
        update_where (λ r. same r.venue_id venue_id) (category_off env.now) db.menu_categories;
  })
  run env Store.update_venue_menu_version
  guard (count_where (is_venue venue_id) db₁.venues == 1) Store.venue_not_found
  ok (
    tt,
    record db₁ {
      venues =
          update_where (is_venue venue_id) (versioned env.now snapshot.version snapshot_hash)
            db₁.venues;
    },
  )

unfoldable pub replace_menu_tx :
    Env → (ℕ → ℕ → Option Text) → Text → MenuSnapshot → Text → Db → Tx (Unit {0})
unfolding check_version store_menu
replace_menu_tx env item_ids venue_id snapshot snapshot_hash db = do
  run env Store.lock_venue_menu
  id ← cast_uuid env venue_id
  row ← elim (find_row (is_venue id) db.venues) [ none ↦ err Store.venue_not_found | some v ↦ ok v ]
  freshness ←
      check_version row.menu_version (coalesce row.menu_snapshot_hash []) snapshot.version
        snapshot_hash
  elim freshness [
    | known ↦ ok (tt, db)
    | fresh ↦ store_menu env item_ids id snapshot snapshot_hash db
  ]

-- `(*Repository).ReplaceMenu`.
unfoldable pub replace_menu :
    Env → (ℕ → ℕ → Option Text) → Text → MenuSnapshot → Text → Db → Outcome RepoError (Unit {0}) Db
unfolding replace_menu_tx transaction
replace_menu env item_ids venue_id snapshot snapshot_hash =
    transaction env (replace_menu_tx env item_ids venue_id snapshot snapshot_hash)

-- `SET is_accepting_orders = $2, availability_reason = $3, updated_at = now()`.
abbrev pub available : ℕ → AvailabilityUpdate → VenueRow → VenueRow
available now u v = record v {
  is_accepting_orders = u.is_accepting_orders;
  availability_reason = u.reason;
  updated_at = now;
}

-- `(*Repository).UpdateAvailability`: one statement, which changes one row or none.
unfoldable pub update_availability : Env → Text → AvailabilityUpdate → Db → Result RepoError Db
update_availability env venue_id update db = do
  run env Store.update_venue_availability
  id ← cast_uuid env venue_id
  guard (count_where (is_venue id) db.venues == 1) Store.venue_not_found
  ok (record db { venues = update_where (is_venue id) (available env.now update) db.venues })
