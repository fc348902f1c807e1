-- ===== src/Venue/Client.antt =====
-- What the venue sends to the platform: internal/venue/integration/platformclient/client.go, and
-- the publication of the menu, internal/venue/service/menu.go.
use avito_kitchen.Base.{ℕ, Bool, true, not, ◌==◌, List, [], map, Text, codes, ◌++◌}
use avito_kitchen.Venue.Store.{CallbackJob, RepoError, OrderEvent}
use avito_kitchen.Venue.Menu.{MenuItem, MenuCategory, MenuSnapshot}
use avito_kitchen.Shared.Transaction.{Result, ok, err, refuse, ◌>>=◌, ◌>>◌}

-- `moneyRequest`, `menuItemRequest`, `menuCategoryRequest` and `replaceMenuRequest`.
pub record MoneyRequest : Type 0 where
  pub amount : ℕ
  pub currency : Text

pub record MenuItemRequest : Type 0 where
  pub external_id : Text
  pub name : Text
  pub description : Text
  pub price : MoneyRequest
  pub is_available : Bool

pub record MenuCategoryRequest : Type 0 where
  pub external_id : Text
  pub name : Text
  pub items : List MenuItemRequest

pub record ReplaceMenuRequest : Type 0 where
  pub version : ℕ
  pub categories : List MenuCategoryRequest

-- `availabilityRequest`.
pub record AvailabilityRequest : Type 0 where
  pub is_accepting_orders : Bool
  pub reason : Text

abbrev pub item_request : MenuItem → MenuItemRequest
item_request i = record {
  external_id = i.external_id;
  name = i.name;
  description = i.description;
  price = record { amount = i.price_amount; currency = i.currency };
  is_available = i.is_available;
}

abbrev pub category_request : MenuCategory → MenuCategoryRequest
category_request c = record {
  external_id = c.external_id;
  name = c.name;
  items = map item_request c.items;
}

-- The loops of `ReplaceMenu`.
unfoldable pub menu_request : MenuSnapshot → ReplaceMenuRequest
menu_request s = record { version = s.version; categories = map category_request s.categories }

-- The three requests that the client can send, with their paths and bodies.
pub data Message : Type 0 where
  put_menu : ReplaceMenuRequest → Message
  patch_availability : AvailabilityRequest → Message
  post_event : Text → OrderEvent → Message

abbrev pub path_of : Message → Text
path_of (put_menu _) = codes "/partner/v1/menu"
path_of (patch_availability _) = codes "/partner/v1/availability"
path_of (post_event order_id _) = codes "/partner/v1/orders/" ++ order_id ++ codes "/events"

-- The errors of `sendBody`: no request, no identifier, no answer, or an answer that is not 204.
pub data SendError : Type 0 where
  not_created no_identifier no_answer : SendError
  refused_with : ℕ → SendError

-- What the network does with a message: it fails, or the platform answers with a status.
abbrev pub Network : Type 0
Network = Message → Result SendError ℕ

-- `sendBody`.
unfoldable pub send_body : Network → Message → Result SendError (Unit {0})
send_body network message = do
  status ← network message
  refuse (not (status == 204)) (refused_with status)

-- `SendOrderEvent`.
unfoldable pub send_order_event : Network → CallbackJob → Result SendError (Unit {0})
unfolding send_body
send_order_event network job = send_body network (post_event job.platform_order_id job.payload)

pub data PublishError : Type 0 where
  load_current_menu : RepoError → PublishError
  publish_menu publish_availability : SendError → PublishError

abbrev wrap : {A E F : Type 0} → (E → F) → Result E A → Result F A
wrap f (err e) = err (f e)
wrap f (ok a) = ok a

-- `Publish`, for what `CurrentMenu` gives.
unfoldable pub publish : Network → Result RepoError MenuSnapshot → Result PublishError (Unit {0})
unfolding menu_request send_body
publish network current_menu = do
  snapshot ← wrap load_current_menu current_menu
  wrap publish_menu (send_body network (put_menu (menu_request snapshot)))
  wrap publish_availability
      (send_body network (patch_availability (record { is_accepting_orders = true; reason = [] })))
