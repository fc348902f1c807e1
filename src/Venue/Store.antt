-- ===== src/Venue/Store.antt =====
-- The data of a venue: internal/venue/domain/model.go, the tables of migrations/venue, and the
-- errors of internal/venue/repository/repository.go.
use avito_kitchen.Base.{ℕ, Bool, Option, List, Text, ◌==◌}

-- The column `venue_orders.status`, by its CHECK constraint.
pub data OrderStatus : Type 0 where
  accepted preparing ready completed rejected cancelled : OrderStatus

pub data EventType : Type 0 where
  order_preparing order_ready order_completed order_cancelled : EventType

abbrev status_number : OrderStatus → ℕ
status_number accepted = 0
status_number preparing = 1
status_number ready = 2
status_number completed = 3
status_number rejected = 4
status_number cancelled = 5

-- `==` on two statuses.
abbrev pub same_status : OrderStatus → OrderStatus → Bool
same_status a b = status_number a == status_number b

pub record OrderItem : Type 0 where
  pub external_item_id : Text
  pub name : Text
  pub quantity : ℕ
  pub expected_unit_price : ℕ

pub record OrderCommand : Type 0 where
  pub platform_order_id : Text
  pub menu_version : ℕ
  pub items : List OrderItem

pub data Reason : Type 0 where
  venue_closed menu_changed items_unavailable : Reason

-- `domain.OrderDecision`; `reason` is `none` exactly where `Result` is "accepted".
pub record OrderDecision : Type 0 where
  pub external_order_id : Text
  pub reason : Option Reason
  pub accepted_items_amount : ℕ
  pub currency : Text
  pub current_menu_version : ℕ
  pub unavailable_item_ids : List Text

-- `domain.CancellationDecision`: `is_cancelled` where `Result` is "cancelled", and "rejected" with
-- the reason "cancellation_not_allowed" otherwise.
pub record CancellationDecision : Type 0 where
  pub is_cancelled : Bool
  pub current_status : OrderStatus

pub record ManagedOrderItem : Type 0 where
  pub external_item_id : Text
  pub name : Text
  pub quantity : ℕ
  pub unit_price : ℕ
  pub total_price : ℕ

pub record ManagedOrder : Type 0 where
  pub id : Text
  pub platform_order_id : Text
  pub status : OrderStatus
  pub items : List ManagedOrderItem
  pub items_amount : ℕ
  pub currency : Text
  pub created_at : ℕ
  pub updated_at : ℕ

pub record OrderEvent : Type 0 where
  pub event_id : Text
  pub sequence : ℕ
  pub type : EventType
  pub occurred_at : ℕ

pub record CallbackJob : Type 0 where
  pub id : Text
  pub platform_order_id : Text
  pub lock_token : Text
  pub payload : OrderEvent
  pub attempts : ℕ

pub record MenuItemRow : Type 0 where
  pub external_id : Text
  pub name : Text
  pub description : Text
  pub price_amount : ℕ
  pub currency : Text
  pub stock_quantity : Option ℕ
  pub is_available : Bool
  pub category_external_id : Text
  pub category_name : Text
  pub position : ℕ
  pub updated_at : ℕ

pub record VenueOrderRow : Type 0 where
  pub id : Text
  pub platform_order_id : Text
  pub menu_version : ℕ
  pub decision_reason : Option Reason
  pub status : OrderStatus
  pub items_amount : Option ℕ
  pub currency : Option Text
  pub decision_details : OrderDecision
  pub next_event_sequence : ℕ
  pub cancellation_decision : Option CancellationDecision
  pub created_at : ℕ
  pub updated_at : ℕ

pub record VenueOrderItemRow : Type 0 where
  pub id : Text
  pub venue_order_id : Text
  pub external_item_id : Text
  pub name : Text
  pub quantity : ℕ
  pub unit_price : ℕ
  pub total_price : ℕ
  pub currency : Text
  pub position : ℕ

pub record VenueOutboxRow : Type 0 where
  pub id : Text
  pub venue_order_id : Text
  pub event_id : Text
  pub sequence : ℕ
  pub event_type : EventType
  pub payload : OrderEvent
  pub attempts : ℕ
  pub available_at : ℕ
  pub locked_until : Option ℕ
  pub lock_token : Option Text
  pub processed_at : Option ℕ
  pub last_error : Option Text
  pub created_at : ℕ

-- `is_accepting_orders` is the column of the one row of `venue_settings`.
pub record Db : Type 0 where
  pub is_accepting_orders : Bool
  pub menu_versions : List ℕ
  pub menu_items : List MenuItemRow
  pub orders : List VenueOrderRow
  pub order_items : List VenueOrderItemRow
  pub outbox : List VenueOutboxRow

-- The statements at which the server can fail, each named for its message.
pub data Fault : Type 0 where
  begin_transaction commit_transaction generate_uuid invalid_uuid : Fault
  lock_platform_order find_decision load_venue_availability load_venue_menu_version : Fault
  lock_venue_menu_items scan_venue_menu_item iterate_venue_menu_items order_total_overflow : Fault
  insert_rejected_order reserve_venue_stock insert_accepted_order insert_venue_order_item : Fault
  list_venue_orders load_venue_order_items get_venue_order lock_venue_cancellation : Fault
  save_cancellation_decision release_venue_stock cancel_venue_order : Fault
  insert_cancellation_callback lock_venue_order_transition update_venue_order_status : Fault
  insert_venue_callback_event claim_callback complete_callback retry_callback : Fault
  get_venue_menu_version list_venue_menu_items : Fault

pub data RepoError : Type 0 where
  menu_not_found order_not_found invalid_order_transition no_callback_job : RepoError
  callback_lease_lost : RepoError
  internal : Fault → RepoError

-- What an operation meets, as in the platform.
pub record Env : Type 0 where
  pub now : ℕ
  pub uuid : ℕ → Option Text
  pub fails : Fault → Bool
  pub uuid_in : Text → Option Text
