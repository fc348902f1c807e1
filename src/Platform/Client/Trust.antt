-- ===== src/Platform/Client/Trust.antt =====
-- What an answer of the venue that the client lets through satisfies.
use avito_kitchen.Base.{
  ℕ, ◌≡◌, refl, Bool, true, Text, arith, ◌||◌, Bool-cases, inl, inr, leb, ◌⊎◌, ◌==◌,
}
use avito_kitchen.Platform.Domain.{OutboxJob, VenueOrderDecision, accepted_order}
use avito_kitchen.Platform.Client.{
  ClientError, Exchange, DecisionBody, is_valid_accepted, read_decision, body, status, no_answer,
}
use avito_kitchen.Shared.Transaction.{ok, err}

-- An acceptance that the client lets through names an order of the venue by a UUID, and is of the
-- amount and in the currency of the job.
pub read_decision-accepted :
    (is_uuid : Text → Bool) (job : OutboxJob) (answer : Exchange DecisionBody)
    (d : VenueOrderDecision)
    → read_decision is_uuid job answer ≡ ok d
    → d.verdict ≡ accepted_order
    → (d.accepted_items_amount ≡ job.expected_items_amount)
      × (d.currency ≡ job.currency)
      × (is_uuid d.external_order_id ≡ true)
unfolding read_decision
read_decision-accepted is_uuid job (body b) d h accepted =
    elim (Bool-cases (is_valid_accepted is_uuid job b)) [
      | inl valid ↦ ground arith
      | inr other ↦ ground arith
    ]
read_decision-accepted is_uuid job _ d h accepted = cc

-- A failed call for a decision is to be retried only where the venue gave no answer, or answered
-- 429 or at least 500.
pub read_decision-retryable :
    (is_uuid : Text → Bool) (job : OutboxJob) (answer : Exchange DecisionBody) (e : ClientError)
    → read_decision is_uuid job answer ≡ err e
    → e.retryable ≡ true
    → (answer ≡ no_answer)
      ⊎ ((code : ℕ) × (answer ≡ status code) × ((code == 429 || leb 500 code) ≡ true))
unfolding read_decision
read_decision-retryable is_uuid job no_answer e h retried = inl refl
read_decision-retryable is_uuid job (status code) e h retried = inr (code, refl, ground arith)
read_decision-retryable is_uuid job (body b) e h retried = absurd (ground arith)
read_decision-retryable is_uuid job _ e h retried = cc
