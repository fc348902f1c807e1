-- ===== src/Platform/Http/Responses.antt =====
-- The answers of the platform: internal/platform/transport/http/dto.go.
use avito_kitchen.Base.{ℕ, Bool, Option, List, map, Text}
use avito_kitchen.Platform.Store.{OrderStatus, CancellationStatus}
use avito_kitchen.Platform.Domain.{Order, OrderItem}
use avito_kitchen.Platform.Orders.{nullif_empty}
use avito_kitchen.Platform.Catalog.{Venue, VenuePage, MenuItem, MenuCategory, Menu}
use avito_kitchen.Platform.Service.Checkout.{Placed}

-- `venueSummaryResponse`.
pub record VenueSummary : Type 0 where
  pub id : Text
  pub name : Text
  pub description : Text
  pub currency : Text
  pub minimum_order_amount : ℕ
  pub is_accepting_orders : Bool

pub record VenuePageResponse : Type 0 where
  pub items : List VenueSummary
  pub next_cursor : Option Text

abbrev pub summary_of : Venue → VenueSummary
summary_of v = record {
  id = v.id;
  name = v.name;
  description = v.description;
  currency = v.currency;
  minimum_order_amount = v.minimum_order_amount;
  is_accepting_orders = v.is_accepting_orders;
}

-- `venuePageDTO`: a pointer to a text that is not empty is `nullif_empty`.
unfoldable pub venue_page_dto : VenuePage → VenuePageResponse
venue_page_dto page = record {
  items = map summary_of page.items;
  next_cursor = nullif_empty page.next_cursor;
}

-- `orderResponse`; its items have the fields of the domain's.
pub record OrderResponse : Type 0 where
  pub id : Text
  pub customer_ref : Text
  pub venue_id : Text
  pub external_order_id : Option Text
  pub status : OrderStatus
  pub cancellation_status : CancellationStatus
  pub rejection_reason : Option Text
  pub items : List OrderItem
  pub items_amount : ℕ
  pub delivery_amount : ℕ
  pub total_amount : ℕ
  pub currency : Text
  pub created_at : ℕ
  pub updated_at : ℕ

-- `orderDTO`.
unfoldable pub order_dto : Order → OrderResponse
order_dto o = record {
  id = o.id;
  customer_ref = o.customer_ref;
  venue_id = o.venue_id;
  external_order_id = nullif_empty o.external_order_id;
  status = o.status;
  cancellation_status = o.cancellation_status;
  rejection_reason = nullif_empty o.rejection_reason;
  items = o.items;
  items_amount = o.items_amount;
  delivery_amount = o.delivery_amount;
  total_amount = o.total_amount;
  currency = o.currency;
  created_at = o.created_at;
  updated_at = o.updated_at;
}

-- `createOrderResponse`.
pub record PlacedResponse : Type 0 where
  pub order : OrderResponse
  pub tracking_token : Text

-- `createOrderDTO`.
unfoldable pub placed_dto : Placed → PlacedResponse
unfolding order_dto
placed_dto p = record { order = order_dto p.order; tracking_token = p.tracking_token }

-- `venueResponse`.
pub record VenueResponse : Type 0 where
  pub id : Text
  pub name : Text
  pub description : Text
  pub address : Text
  pub currency : Text
  pub minimum_order_amount : ℕ
  pub is_accepting_orders : Bool

-- `venueDTO`.
unfoldable pub venue_dto : Venue → VenueResponse
venue_dto v = record {
  id = v.id;
  name = v.name;
  description = v.description;
  address = v.address;
  currency = v.currency;
  minimum_order_amount = v.minimum_order_amount;
  is_accepting_orders = v.is_accepting_orders;
}

-- `menuItemResponse`, with its price, `menuCategoryResponse` and `menuResponse`.
pub record MenuItemResponse : Type 0 where
  pub id : Text
  pub external_id : Text
  pub name : Text
  pub description : Text
  pub price_amount : ℕ
  pub price_currency : Text
  pub is_available : Bool

pub record MenuCategoryResponse : Type 0 where
  pub external_id : Text
  pub name : Text
  pub items : List MenuItemResponse

pub record MenuResponse : Type 0 where
  pub venue_id : Text
  pub version : ℕ
  pub updated_at : ℕ
  pub categories : List MenuCategoryResponse

abbrev pub item_response : MenuItem → MenuItemResponse
item_response i = record {
  id = i.id;
  external_id = i.external_id;
  name = i.name;
  description = i.description;
  price_amount = i.price_amount;
  price_currency = i.currency;
  is_available = i.is_available;
}

abbrev pub category_response : MenuCategory → MenuCategoryResponse
category_response c = record {
  external_id = c.external_id;
  name = c.name;
  items = map item_response c.items;
}

-- `menuDTO`.
unfoldable pub menu_dto : Menu → MenuResponse
menu_dto m = record {
  venue_id = m.venue_id;
  version = m.version;
  updated_at = m.updated_at;
  categories = map category_response m.categories;
}
