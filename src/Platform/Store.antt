-- ===== src/Platform/Store.antt =====
-- The data of the platform: internal/platform/domain/model.go, the tables of
-- migrations/platform, and the errors of internal/platform/repository/repository.go.
use avito_kitchen.Base.{ℕ, Bool, true, false, Option, List, Text, ◌==◌}

-- The column `orders.status`, by its CHECK constraint.
pub data OrderStatus : Type 0 where
  pending_confirmation accepted preparing ready completed : OrderStatus
  rejected confirmation_expired cancelled : OrderStatus

-- The column `orders.cancellation_status`; `no_cancellation` is the text 'none'.
pub data CancellationStatus : Type 0 where
  no_cancellation requested confirmed rejected failed : CancellationStatus

-- The column `partner_order_events.event_type`, by its CHECK constraint.
pub data EventType : Type 0 where
  order_preparing order_ready order_completed order_cancelled : EventType

-- The column `outbox.event_type`, by its CHECK constraint.
pub data JobType : Type 0 where
  confirm_order cancel_order : JobType

-- The column `order_status_history.source`, by its CHECK constraint.
pub data Source : Type 0 where
  customer platform venue : Source

abbrev status_number : OrderStatus → ℕ
status_number pending_confirmation = 0
status_number accepted = 1
status_number preparing = 2
status_number ready = 3
status_number completed = 4
status_number OrderStatus.rejected = 5
status_number confirmation_expired = 6
status_number cancelled = 7

abbrev event_number : EventType → ℕ
event_number order_preparing = 0
event_number order_ready = 1
event_number order_completed = 2
event_number order_cancelled = 3

-- `==` on two statuses, and on two event types.
abbrev pub same_status : OrderStatus → OrderStatus → Bool
same_status a b = status_number a == status_number b

abbrev pub same_event : EventType → EventType → Bool
same_event a b = event_number a == event_number b

abbrev pub is_pending : OrderStatus → Bool
is_pending pending_confirmation = true
is_pending _ = false

abbrev pub is_requested : CancellationStatus → Bool
is_requested requested = true
is_requested _ = false

abbrev pub is_cancel : JobType → Bool
is_cancel cancel_order = true
is_cancel confirm_order = false

abbrev pub same_job : JobType → JobType → Bool
same_job cancel_order b = is_cancel b
same_job confirm_order cancel_order = false
same_job confirm_order confirm_order = true

pub record VenueOrderItem : Type 0 where
  pub external_item_id : Text
  pub name : Text
  pub quantity : ℕ
  pub expected_unit_price : ℕ

pub record VenueOrderCommand : Type 0 where
  pub platform_order_id : Text
  pub menu_version : ℕ
  pub items : List VenueOrderItem

-- The JSON text of `outbox.payload`, by the value that it encodes.
pub data Payload : Type 0 where
  order_command : VenueOrderCommand → Payload
  empty_object : Payload

pub record OrderRow : Type 0 where
  pub id : Text
  pub customer_ref : Text
  pub venue_id : Text
  pub external_order_id : Option Text
  pub status : OrderStatus
  pub cancellation_status : CancellationStatus
  pub rejection_reason : Option Text
  pub menu_version : ℕ
  pub items_amount : ℕ
  pub delivery_amount : ℕ
  pub total_amount : ℕ
  pub currency : Text
  pub delivery : Text
  pub idempotency_key : Text
  pub request_hash : Text
  pub tracking_token_hash : Text
  pub venue_event_sequence : ℕ
  pub confirmation_deadline : ℕ
  pub created_at : ℕ
  pub updated_at : ℕ

pub record OrderItemRow : Type 0 where
  pub id : Text
  pub order_id : Text
  pub menu_item_id : Text
  pub external_item_id : Text
  pub name : Text
  pub quantity : ℕ
  pub unit_price : ℕ
  pub total_price : ℕ
  pub currency : Text
  pub position : ℕ

pub record HistoryRow : Type 0 where
  pub id : Text
  pub order_id : Text
  pub status : OrderStatus
  pub source : Source
  pub reason : Option Text
  pub occurred_at : ℕ

pub record PartnerEventRow : Type 0 where
  pub event_id : Text
  pub order_id : Text
  pub sequence : ℕ
  pub event_type : EventType
  pub occurred_at : ℕ

pub record OutboxRow : Type 0 where
  pub id : Text
  pub aggregate_id : Text
  pub event_type : JobType
  pub payload : Payload
  pub attempts : ℕ
  pub available_at : ℕ
  pub locked_until : Option ℕ
  pub lock_token : Option Text
  pub processed_at : Option ℕ
  pub last_error : Option Text
  pub created_at : ℕ

pub record VenueRow : Type 0 where
  pub id : Text
  pub name : Text
  pub description : Text
  pub address : Text
  pub currency : Text
  pub minimum_order_amount : ℕ
  pub is_accepting_orders : Bool
  pub availability_reason : Text
  pub menu_version : Option ℕ
  pub menu_snapshot_hash : Option Text
  pub menu_updated_at : Option ℕ
  pub updated_at : ℕ

pub record CategoryRow : Type 0 where
  pub id : Text
  pub venue_id : Text
  pub external_id : Text
  pub name : Text
  pub position : ℕ
  pub is_active : Bool
  pub updated_at : ℕ

pub record MenuItemRow : Type 0 where
  pub id : Text
  pub venue_id : Text
  pub category_id : Text
  pub external_id : Text
  pub name : Text
  pub description : Text
  pub price_amount : ℕ
  pub currency : Text
  pub is_available : Bool
  pub is_active : Bool
  pub position : ℕ
  pub updated_at : ℕ

pub record Db : Type 0 where
  pub venues : List VenueRow
  pub menu_categories : List CategoryRow
  pub menu_items : List MenuItemRow
  pub orders : List OrderRow
  pub order_items : List OrderItemRow
  pub order_status_history : List HistoryRow
  pub partner_order_events : List PartnerEventRow
  pub outbox : List OutboxRow

-- The statements at which the server can fail, each named for the message that the code wraps
-- its error in.
pub data Fault : Type 0 where
  begin_transaction commit_transaction generate_uuid invalid_uuid : Fault
  lock_idempotency_scope find_idempotent_order load_existing_items : Fault
  lock_checkout_venue load_checkout_items scan_checkout_item iterate_checkout_items : Fault
  encode_delivery insert_order insert_order_item insert_order_history : Fault
  encode_order_command insert_order_outbox get_order_by_access load_order_items : Fault
  lock_order_cancellation lock_confirmation_cancellation cancel_confirmation_job : Fault
  cancel_pending_order request_order_cancellation insert_cancellation_outbox : Fault
  claim_outbox_job lock_order_decision complete_outbox_job apply_venue_decision : Fault
  record_venue_decision lock_cancellation_result complete_cancellation_job : Fault
  apply_successful_cancellation apply_rejected_cancellation lock_order_retry : Fault
  reschedule_outbox_job expire_outbox_job fail_cancellation expire_confirmation : Fault
  record_expiration lock_platform_order_event find_existing_order_event : Fault
  insert_partner_order_event apply_partner_order_event complete_cancellation_outbox : Fault
  insert_partner_event_history lock_venue_menu deactivate_menu_items : Fault
  deactivate_menu_categories upsert_menu_category upsert_menu_item : Fault
  update_venue_menu_version update_venue_availability list_venues get_venue : Fault
  get_menu_version list_menu_categories list_menu_items inactive_category : Fault

-- The errors of repository.go, and any other.
pub data RepoError : Type 0 where
  venue_not_found menu_not_found stale_menu_version menu_version_conflict : RepoError
  venue_closed menu_changed items_unavailable minimum_order amount_overflow : RepoError
  idempotency_key_reused no_outbox_job outbox_lease_lost order_not_found : RepoError
  order_venue_mismatch event_conflict event_sequence_conflict : RepoError
  invalid_order_transition order_cancellation_not_allowed : RepoError
  internal : Fault → RepoError

-- What an operation meets: the clock, the n-th identifier that it generates (`none` when the
-- random source fails), the statements that fail, and how the server reads a text as a value of
-- its type `uuid` (`none` when it refuses the text), given by the text that it sends back.
pub record Env : Type 0 where
  pub now : ℕ
  pub uuid : ℕ → Option Text
  pub fails : Fault → Bool
  pub uuid_in : Text → Option Text
