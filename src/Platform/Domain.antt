-- ===== src/Platform/Domain.antt =====
-- The values that the platform's repository takes and returns, internal/platform/domain/model.go.
-- Amounts, quantities and versions are those that the service has let through: none is negative.
use avito_kitchen.Base.{ℕ, List, Text}
use avito_kitchen.Platform.Store.{OrderStatus, CancellationStatus, EventType, JobType, Payload}

pub record OrderItemRequest : Type 0 where
  pub menu_item_id : Text
  pub quantity : ℕ

-- `delivery` is the JSON text of the `Delivery` value, as the column keeps it.
pub record CreateOrderRequest : Type 0 where
  pub customer_ref : Text
  pub venue_id : Text
  pub menu_version : ℕ
  pub items : List OrderItemRequest
  pub delivery : Text

pub record OrderItem : Type 0 where
  pub menu_item_id : Text
  pub external_item_id : Text
  pub name : Text
  pub quantity : ℕ
  pub unit_price : ℕ
  pub total_price : ℕ

pub record Order : Type 0 where
  pub id : Text
  pub customer_ref : Text
  pub venue_id : Text
  pub external_order_id : Text
  pub status : OrderStatus
  pub cancellation_status : CancellationStatus
  pub rejection_reason : Text
  pub items : List OrderItem
  pub items_amount : ℕ
  pub delivery_amount : ℕ
  pub total_amount : ℕ
  pub currency : Text
  pub created_at : ℕ
  pub updated_at : ℕ

pub record CreateOrderCommand : Type 0 where
  pub order_id : Text
  pub idempotency_key : Text
  pub request_hash : Text
  pub tracking_token_hash : Text
  pub confirmation_deadline : ℕ
  pub request : CreateOrderRequest

pub record OrderEvent : Type 0 where
  pub event_id : Text
  pub sequence : ℕ
  pub type : EventType
  pub occurred_at : ℕ
  pub reason : Text

pub record OutboxJob : Type 0 where
  pub id : Text
  pub order_id : Text
  pub event_type : JobType
  pub lock_token : Text
  pub payload : Payload
  pub attempts : ℕ
  pub confirmation_deadline : ℕ
  pub expected_items_amount : ℕ
  pub currency : Text

-- `Result` of a decision is one of two texts; the client refuses any other.
pub data Verdict : Type 0 where
  accepted_order rejected_order : Verdict

pub record VenueOrderDecision : Type 0 where
  pub verdict : Verdict
  pub external_order_id : Text
  pub accepted_items_amount : ℕ
  pub currency : Text
  pub reason : Text
  pub current_menu_version : ℕ
  pub unavailable_item_ids : List Text

pub data CancellationVerdict : Type 0 where
  cancelled_order refused_cancellation : CancellationVerdict

pub record VenueCancellationDecision : Type 0 where
  pub verdict : CancellationVerdict
  pub reason : Text
