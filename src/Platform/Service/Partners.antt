-- ===== src/Platform/Service/Partners.antt =====
-- `ReplaceMenu`, `UpdateAvailability` and `RecordOrderEvent` of
-- internal/platform/service/service.go.
use avito_kitchen.Base.{
  ℕ, Bool, not, ◌||◌, ltb, Option, List, [], ◌∷◌, map, Text, codes, length, same, exists_row,
}
use avito_kitchen.Platform.Store.{Db, Env}
use avito_kitchen.Platform.Domain.{OrderEvent}
use avito_kitchen.Platform.Events.{record_order_event}
use avito_kitchen.Platform.Partner.{
  MenuItem, MenuCategory, MenuSnapshot, AvailabilityUpdate, replace_menu, update_availability,
}
use avito_kitchen.Platform.Service.{invalid_request, map_repository_error}
use avito_kitchen.Platform.Service.Checkout.{answer}
use avito_kitchen.Shared.Errors.{AppError}
use avito_kitchen.Shared.Strings.{
  rune_count, valid_required_text, valid_optional_text, valid_currency,
}
use avito_kitchen.Shared.Transaction.{Result, ok, err, refuse, Outcome, ◌>>=◌, ◌>>◌}
use avito_kitchen.Shared.Uuid.{is_valid}

-- The first test of that loop; the transport has refused negative amounts.
abbrev pub is_invalid_item : MenuItem → Bool
is_invalid_item i =
    not (valid_required_text i.external_id 128)
    || not (valid_required_text i.name 200)
    || not (valid_optional_text i.description 2000)
    || not (valid_currency i.currency)

-- The loop over the items of a category; `seen` is the map `items`, which it gives back.
unfoldable pub validate_menu_items : List Text → List MenuItem → Result AppError (List Text)
unfolding valid_required_text valid_optional_text valid_currency
validate_menu_items seen [] = ok seen
validate_menu_items seen (i ∷ is) = do
  refuse (is_invalid_item i) (invalid_request (codes "menu item is invalid"))
  refuse (exists_row (same i.external_id) seen)
      (invalid_request (codes "menu item external_id must be unique"))
  validate_menu_items (i.external_id ∷ seen) is

-- The loop over the categories; `known` is the map `categories`.
unfoldable pub validate_categories :
    List Text → List Text → List MenuCategory → Result AppError (Unit {0})
unfolding validate_menu_items valid_required_text
validate_categories known seen [] = ok tt
validate_categories known seen (c ∷ cs) = do
  refuse (not (valid_required_text c.external_id 128) || not (valid_required_text c.name 200))
      (invalid_request (codes "menu category is invalid"))
  refuse (exists_row (same c.external_id) known)
      (invalid_request (codes "menu category external_id must be unique"))
  refuse (ltb 1000 (length c.items)) (invalid_request (codes "menu category has too many items"))
  seen' ← validate_menu_items seen c.items
  validate_categories (c.external_id ∷ known) seen' cs

-- `validateSnapshot`.
unfoldable pub validate_snapshot : MenuSnapshot → Result AppError (Unit {0})
unfolding validate_categories
validate_snapshot s = do
  refuse (ltb s.version 1 || ltb (length s.categories) 1 || ltb 100 (length s.categories))
      (invalid_request (codes "menu snapshot is invalid"))
  validate_categories [] [] s.categories

-- `hashItem`, `hashCategory` and `hashSnapshot`.
pub record HashItem : Type 0 where
  pub external_id : Text
  pub name : Text
  pub description : Text
  pub amount : ℕ
  pub currency : Text
  pub is_available : Bool

pub record HashCategory : Type 0 where
  pub external_id : Text
  pub name : Text
  pub items : List HashItem

pub record HashSnapshot : Type 0 where
  pub version : ℕ
  pub categories : List HashCategory

abbrev pub hash_item : MenuItem → HashItem
hash_item i = record {
  external_id = i.external_id;
  name = i.name;
  description = i.description;
  amount = i.price_amount;
  currency = i.currency;
  is_available = i.is_available;
}

abbrev pub hash_category : MenuCategory → HashCategory
hash_category c = record {
  external_id = c.external_id;
  name = c.name;
  items = map hash_item c.items;
}

-- `canonicalSnapshot`.
unfoldable pub canonical_snapshot : MenuSnapshot → HashSnapshot
canonical_snapshot s = record { version = s.version; categories = map hash_category s.categories }

-- `(*PartnerService).ReplaceMenu`. `digest` stands for the SHA-256 digest of a JSON text, in
-- hexadecimal digits.
unfoldable pub publish_menu :
    (HashSnapshot → Text)
    → Env
    → (ℕ → ℕ → Option Text)
    → Text
    → MenuSnapshot
    → Db
    → Outcome AppError (Unit {0}) Db
unfolding validate_snapshot canonical_snapshot replace_menu map_repository_error
publish_menu digest env item_ids venue_id snapshot db = elim (validate_snapshot snapshot) [
  | err e ↦ record { result = err e; db = db }
  | ok _ ↦
      answer (λ u. u)
        (replace_menu env item_ids venue_id snapshot (digest (canonical_snapshot snapshot)) db)
]

-- `(*PartnerService).UpdateAvailability`.
unfoldable pub change_availability :
    Env → Text → AvailabilityUpdate → Db → Outcome AppError (Unit {0}) Db
unfolding rune_count update_availability map_repository_error
change_availability env venue_id update db =
    elim (refuse (ltb 200 (rune_count update.reason))
      (invalid_request (codes "availability reason is too long"))) [
        | err e ↦ record { result = err e; db = db }
        | ok _ ↦ elim (update_availability env venue_id update db) [
          | err e ↦ record { result = err (map_repository_error e); db = db }
          | ok db' ↦ record { result = ok tt; db = db' }
        ]
      ]

-- The tests of `RecordOrderEvent`. The transport has refused any other type and the zero time.
unfoldable pub is_invalid_event : OrderEvent → Bool
unfolding is_valid rune_count
is_invalid_event e = not (is_valid e.event_id) || ltb e.sequence 1 || ltb 500 (rune_count e.reason)

-- `(*PartnerService).RecordOrderEvent`.
unfoldable pub accept_event : Env → Text → Text → OrderEvent → Db → Outcome AppError (Unit {0}) Db
unfolding is_invalid_event record_order_event map_repository_error
accept_event env venue_id order_id event db =
    elim (refuse (is_invalid_event event) (invalid_request (codes "order event is invalid"))) [
      | err e ↦ record { result = err e; db = db }
      | ok _ ↦ answer (λ u. u) (record_order_event env venue_id order_id event db)
    ]
