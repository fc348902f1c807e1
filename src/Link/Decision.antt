-- ===== src/Link/Decision.antt =====
-- The decision on its way: `decisionDTO` of internal/venue/transport/http/dto.go, and `Decide` of
-- internal/platform/integration/venueclient/client.go. The two packages give the fields the same
-- names in JSON, and a field that is left out reads as the zero value.
use avito_kitchen.Base.{
  ℕ, ◌≡◌, refl, Bool, true, ◌&&◌, ◌==◌, ltb, Option, none, some, [], Text, same, coalesce, arith,
  if◌then◌else◌, Text_discrete, ℕ_discrete,
}
use avito_kitchen.Platform.Client.{DecisionBody, body, read_decision}
use avito_kitchen.Platform.Domain.{OutboxJob, VenueOrderDecision, accepted_order, rejected_order}
use avito_kitchen.Shared.Transaction.{ok}
use avito_kitchen.Venue.Http.{DecisionResponse, decision_dto, reason_text}
use avito_kitchen.Venue.Store.{OrderDecision, Reason}
use avito_kitchen.Venue.Store

-- The JSON object of a decision, field by field.
abbrev pub sent_decision : DecisionResponse → DecisionBody
sent_decision r = record {
  result = r.result;
  external_order_id = r.external_order_id;
  accepted_items_amount = some (coalesce r.accepted_items_amount 0);
  currency = r.currency;
  reason = r.reason;
  current_menu_version = coalesce r.current_menu_version 0;
  unavailable_item_ids = r.unavailable_item_ids;
}

-- The venue's decision as a value of the platform.
abbrev pub same_decision : OrderDecision → VenueOrderDecision
same_decision d = elim d.reason [
  | none ↦ record {
    verdict = accepted_order;
    external_order_id = d.external_order_id;
    accepted_items_amount = d.accepted_items_amount;
    currency = d.currency;
    reason = [];
    current_menu_version = 0;
    unavailable_item_ids = d.unavailable_item_ids;
  }
  | some reason ↦ record {
    verdict = rejected_order;
    external_order_id = d.external_order_id;
    accepted_items_amount = 0;
    currency = d.currency;
    reason = reason_text reason;
    current_menu_version = d.current_menu_version;
    unavailable_item_ids = d.unavailable_item_ids;
  }
]

-- An acceptance of what the job asks for, or any rejection.
abbrev pub fits_job : (Text → Bool) → OutboxJob → OrderDecision → Bool
fits_job is_uuid job d = elim d.reason [
  | none ↦
      is_uuid d.external_order_id
      && same d.currency job.currency
      && d.accepted_items_amount == job.expected_items_amount
  | some reason ↦ true
]

abbrev with_reason : Option Reason → OrderDecision → OrderDecision
with_reason reason d = record d { reason = reason }

version_kept : (v : ℕ) → coalesce (if ltb 0 v then some v else none) 0 ≡ v
version_kept v = ground arith

module _ (is_uuid : Text → Bool) (job : OutboxJob) (d : OrderDecision) where
  read_by_reason :
      (reason : Option Reason)
      → fits_job is_uuid job (with_reason reason d) ≡ true
      → read_decision is_uuid job (body (sent_decision (decision_dto (with_reason reason d))))
        ≡ ok (same_decision (with_reason reason d))
  unfolding read_decision decision_dto Text_discrete ℕ_discrete
  read_by_reason none h = ground arith
  read_by_reason (some Store.venue_closed) h = rw (version_kept d.current_menu_version) refl
  read_by_reason (some Store.menu_changed) h = rw (version_kept d.current_menu_version) refl
  read_by_reason (some Store.items_unavailable) h = rw (version_kept d.current_menu_version) refl

-- What the client of the platform reads of the answer by which the venue sends a decision is that
-- decision, where it rejects the order, or accepts it under a valid identifier for the amount and
-- in the currency of the job.
pub read_decision-sent_decision :
    (is_uuid : Text → Bool) (job : OutboxJob) (d : OrderDecision)
    → fits_job is_uuid job d ≡ true
    → read_decision is_uuid job (body (sent_decision (decision_dto d))) ≡ ok (same_decision d)
read_decision-sent_decision is_uuid job d h = read_by_reason is_uuid job d d.reason h
