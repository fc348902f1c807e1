-- ===== src/Platform/Client.antt =====
-- The answers of the venue: internal/platform/integration/venueclient/client.go after the exchange.
pub mod Trust
use avito_kitchen.Base.{
  ℕ, Bool, true, false, Option, none, some, List, Text, codes, ◌==◌, same, leb, ◌&&◌, ◌||◌,
  if◌then◌else◌,
}
use avito_kitchen.Platform.Domain.{
  OutboxJob, VenueOrderDecision, accepted_order, rejected_order, VenueCancellationDecision,
  cancelled_order, refused_cancellation,
}
use avito_kitchen.Shared.Transaction.{Result, ok, err}

-- `Error` without its cause: a status, 0 where there was no answer, and whether a retry may help.
pub record ClientError : Type 0 where
  pub status_code : ℕ
  pub retryable : Bool

-- What `client.http.Do` and the decoder give: no exchange, a status, or a decoded body of a 200.
-- `not_sent` stands for a request that could not be built or that has no identifier.
pub data Exchange (A : Type 0) : Type 0 where
  not_sent no_answer undecodable : Exchange A
  status : ℕ → Exchange A
  body : A → Exchange A

-- The JSON object of a decision. An amount is `none` where it is negative.
pub record DecisionBody : Type 0 where
  pub result : Text
  pub external_order_id : Text
  pub accepted_items_amount : Option ℕ
  pub currency : Text
  pub reason : Text
  pub current_menu_version : ℕ
  pub unavailable_item_ids : List Text

-- `StatusCode == http.StatusTooManyRequests || StatusCode >= 500`.
abbrev pub is_transient : ℕ → Bool
is_transient code = code == 429 || leb 500 code

abbrev pub permanent : ClientError
permanent = record { status_code = 0; retryable = false }

abbrev pub same_amount : Option ℕ → ℕ → Bool
same_amount none n = false
same_amount (some m) n = m == n

-- `validAccepted`. `is_uuid` is `shareduuid.IsValid`.
abbrev pub is_valid_accepted : (Text → Bool) → OutboxJob → DecisionBody → Bool
is_valid_accepted is_uuid job d =
    same d.result (codes "accepted")
    && is_uuid d.external_order_id
    && same d.currency job.currency
    && same_amount d.accepted_items_amount job.expected_items_amount

-- `validRejected`.
abbrev pub is_valid_rejected : DecisionBody → Bool
is_valid_rejected d =
    same d.result (codes "rejected")
    && (same d.reason (codes "venue_closed")
        || same d.reason (codes "menu_changed")
        || same d.reason (codes "items_unavailable"))

abbrev pub amount_of : Option ℕ → ℕ
amount_of none = 0
amount_of (some n) = n

-- The end of `(*Client).Decide`.
unfoldable pub read_decision :
    (Text → Bool) → OutboxJob → Exchange DecisionBody → Result ClientError VenueOrderDecision
read_decision is_uuid job not_sent = err permanent
read_decision is_uuid job no_answer = err (record { status_code = 0; retryable = true })
read_decision is_uuid job undecodable = err permanent
read_decision is_uuid job (status code) =
    err (record { status_code = code; retryable = is_transient code })
read_decision is_uuid job (body d) =
    if is_valid_accepted is_uuid job d || is_valid_rejected d
    then ok (record {
      verdict = if same d.result (codes "accepted") then accepted_order else rejected_order;
      external_order_id = d.external_order_id;
      accepted_items_amount = amount_of d.accepted_items_amount;
      currency = d.currency;
      reason = d.reason;
      current_menu_version = d.current_menu_version;
      unavailable_item_ids = d.unavailable_item_ids;
    })
    else err permanent

pub record CancellationBody : Type 0 where
  pub result : Text
  pub current_status : Text
  pub reason : Text

abbrev pub is_empty_text : Text → Bool
is_empty_text t = same t (codes "")

-- The end of `(*Client).Cancel`.
unfoldable pub read_cancellation :
    Exchange CancellationBody → Result ClientError VenueCancellationDecision
read_cancellation not_sent = err permanent
read_cancellation no_answer = err (record { status_code = 0; retryable = true })
read_cancellation undecodable = err permanent
read_cancellation (status code) = err (record { status_code = code; retryable = is_transient code })
read_cancellation (body d) =
    if same d.result (codes "cancelled")
      && same d.current_status (codes "cancelled")
      && is_empty_text d.reason
    then ok (record { verdict = cancelled_order; reason = d.reason })
    else if same d.result (codes "rejected") && same d.reason (codes "cancellation_not_allowed")
    then ok (record { verdict = refused_cancellation; reason = d.reason })
    else err permanent
