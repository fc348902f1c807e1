-- ===== src/Link/Menu.antt =====
-- The menu on its way: `ReplaceMenu` of internal/venue/integration/platformclient/client.go, and
-- `domain` of internal/platform/transport/http/dto.go. The two packages give the fields the same
-- names in JSON.
use avito_kitchen.Base.{ℕ, ◌≡◌, refl, ap, Bool, true, ◌&&◌, leb, List, [], ◌∷◌, map, length, arith}
use avito_kitchen.Platform.Partner
use avito_kitchen.Platform.Http.Requests.{
  PartnerMenuItem, PartnerMenuCategory, ReplaceMenuRequest, items_of, categories_of, snapshot_of,
}
use avito_kitchen.Shared.Integers.{ℤ}
use avito_kitchen.Shared.Strings.{valid_required_text, valid_optional_text, valid_currency}
use avito_kitchen.Shared.Transaction.{ok}
use avito_kitchen.Venue.Client
use avito_kitchen.Venue.Client.{item_request, category_request, menu_request}
use avito_kitchen.Venue.Menu.{MenuItem, MenuCategory, MenuSnapshot}

-- The JSON object of a request, field by field.
abbrev pub sent_item : Client.MenuItemRequest → PartnerMenuItem
sent_item i = record {
  external_id = i.external_id;
  name = i.name;
  description = i.description;
  price = record { amount = ℤ.pos i.price.amount; currency = i.price.currency };
  is_available = i.is_available;
}

abbrev pub sent_category : Client.MenuCategoryRequest → PartnerMenuCategory
sent_category c = record {
  external_id = c.external_id;
  name = c.name;
  items = map sent_item c.items;
}

abbrev pub sent_menu : Client.ReplaceMenuRequest → ReplaceMenuRequest
sent_menu r = record { version = ℤ.pos r.version; categories = map sent_category r.categories }

-- The venue's menu as a value of the platform.
abbrev pub same_item : MenuItem → Partner.MenuItem
same_item i = record {
  external_id = i.external_id;
  name = i.name;
  description = i.description;
  price_amount = i.price_amount;
  currency = i.currency;
  is_available = i.is_available;
}

abbrev pub same_category : MenuCategory → Partner.MenuCategory
same_category c = record {
  external_id = c.external_id;
  name = c.name;
  items = map same_item c.items;
}

abbrev pub same_menu : MenuSnapshot → Partner.MenuSnapshot
same_menu s = record { version = s.version; categories = map same_category s.categories }

-- A menu whose texts, currencies and sizes the platform allows.
abbrev pub is_allowed_item : MenuItem → Bool
is_allowed_item i =
    valid_required_text i.external_id 128
    && valid_required_text i.name 200
    && valid_optional_text i.description 2000
    && valid_currency i.currency

abbrev pub are_allowed_items : List MenuItem → Bool
are_allowed_items [] = true
are_allowed_items (i ∷ is) = is_allowed_item i && are_allowed_items is

abbrev pub are_allowed_categories : List MenuCategory → Bool
are_allowed_categories [] = true
are_allowed_categories (c ∷ cs) =
    valid_required_text c.external_id 128
    && valid_required_text c.name 200
    && leb (length c.items) 1000
    && are_allowed_items c.items
    && are_allowed_categories cs

abbrev pub is_allowed_menu : MenuSnapshot → Bool
is_allowed_menu s =
    leb 1 s.version
    && leb 1 (length s.categories)
    && leb (length s.categories) 100
    && are_allowed_categories s.categories

length-map : {A B : Type 0} (f : A → B) (xs : List A) → length (map f xs) ≡ length xs
length-map f [] = refl
length-map f (x ∷ xs) = ap ℕ.suc (length-map f xs)

items_of-sent :
    (is : List MenuItem)
    → are_allowed_items is ≡ true
    → items_of (map sent_item (map item_request is)) ≡ ok (map same_item is)
unfolding items_of
items_of-sent [] h = refl
items_of-sent (i ∷ is) h = ground (arith, items_of-sent is)

categories_of-sent :
    (cs : List MenuCategory)
    → are_allowed_categories cs ≡ true
    → categories_of (map sent_category (map category_request cs)) ≡ ok (map same_category cs)
unfolding categories_of
categories_of-sent [] h = refl
categories_of-sent (c ∷ cs) h = ground (
  arith,
  items_of-sent c.items,
  categories_of-sent cs,
  length-map sent_item (map item_request c.items),
  length-map item_request c.items,
)

-- What the platform reads of the request by which the venue publishes a menu is that menu, where
-- its texts, currencies and sizes are allowed.
pub snapshot_of-sent_menu :
    (s : MenuSnapshot)
    → is_allowed_menu s ≡ true
    → snapshot_of (sent_menu (menu_request s)) ≡ ok (same_menu s)
unfolding snapshot_of menu_request
snapshot_of-sent_menu s h = ground (
  arith,
  categories_of-sent s.categories,
  length-map sent_category (map category_request s.categories),
  length-map category_request s.categories,
)
