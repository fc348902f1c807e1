-- ===== src/Venue/System/Repeat.antt =====
-- Repeated commands for one order: `DecideOrder` and `CancelOrder` of
-- internal/venue/repository/orders.go after whatever the venue has done since.
use avito_kitchen.Base.{◌≡◌, false, some, Text, find_row, arith, Option-cases, inl, inr}
use avito_kitchen.Venue.Store.{OrderCommand, OrderDecision, CancellationDecision, Db, Env, Fault}
use avito_kitchen.Venue.Decide.{is_for}
use avito_kitchen.Venue.Decide.Apply.{decide_order_tx, decide_order}
use avito_kitchen.Venue.Decide.Stable.{saved_decision, decide_order_tx-saves, decide_order_tx-saved}
use avito_kitchen.Venue.Cancel.{cancel_order_tx, cancel_order}
use avito_kitchen.Venue.Cancel.Once.{
  saved_answer, Answer-saves, cancel_order_tx-Answer, cancel_order_tx-saved,
}
use avito_kitchen.Venue.Lifecycle.Events.{IsNumbered}
use avito_kitchen.Venue.Numbering.{decide_order-IsNumbered, cancel_order-IsNumbered}
use avito_kitchen.Venue.Run.{transaction-ok, transaction-commits}
use avito_kitchen.Venue.System.{Reach}
use avito_kitchen.Venue.System.Steps.{Reach-Kept}
use avito_kitchen.Shared.Transaction.{ok}

Reach-saved_decision :
    {db db' : Db} (id : Text) {d : OrderDecision}
    → IsNumbered db
    → Reach db db'
    → saved_decision id db.orders ≡ some d
    → saved_decision id db'.orders ≡ some d
Reach-saved_decision {db} {db'} id {d} i r saved =
    elim (Option-cases (find_row (is_for id) db.orders)) [
      | inl missing ↦ absurd (ground arith)
      | inr (row, known) ↦
          let (row', found, stands) = Reach-Kept i r id row known in ground (arith, stands.decided)
    ]

Reach-saved_answer :
    {db db' : Db} (id : Text) {d : CancellationDecision}
    → IsNumbered db
    → Reach db db'
    → saved_answer id db.orders ≡ some d
    → saved_answer id db'.orders ≡ some d
Reach-saved_answer {db} {db'} id {d} i r saved =
    elim (Option-cases (find_row (is_for id) db.orders)) [
      | inl missing ↦ absurd (ground arith)
      | inr (row, known) ↦
          let (row', found, stands) = Reach-Kept i r id row known in
          ground (arith, stands.answered d)
    ]

-- Once the venue has decided an order, in a database whose events are numbered, every later command
-- for the same order, whatever it asks for and whatever the venue has done since, is answered with
-- that decision and changes nothing, where the server does not fail.
pub decide_order-repeat :
    (env env' : Env) (command command' : OrderCommand) (id : Text) {db after : Db}
    (d : OrderDecision)
    → IsNumbered db
    → env.uuid_in command.platform_order_id ≡ some id
    → (decide_order env command db).result ≡ ok d
    → Reach (decide_order env command db).db after
    → env'.uuid_in command'.platform_order_id ≡ some id
    → ((f : Fault) → env'.fails f ≡ false)
    → decide_order env' command' after ≡ record { result = ok d; db = after }
unfolding decide_order
decide_order-repeat env env' command command' id {db} {after} d i e h since e' smooth =
    let done = transaction-ok env (decide_order_tx env command) db d h in
    let saved = decide_order_tx-saves env command id db e done in
    let later = Reach-saved_decision id (decide_order-IsNumbered env command db i) since saved in
    transaction-commits env' (decide_order_tx env' command') after d after smooth
      (decide_order_tx-saved env' command' id after smooth e' later)

-- Once the venue has answered a cancellation, in a database whose events are numbered, every later
-- request for the same order, whatever the venue has done since, gets that answer and changes
-- nothing, where the server does not fail.
pub cancel_order-repeat :
    (env env' : Env) (platform_order_id again id : Text) {db after : Db} (d : CancellationDecision)
    → IsNumbered db
    → env.uuid_in platform_order_id ≡ some id
    → (cancel_order env platform_order_id db).result ≡ ok d
    → Reach (cancel_order env platform_order_id db).db after
    → env'.uuid_in again ≡ some id
    → ((f : Fault) → env'.fails f ≡ false)
    → cancel_order env' again after ≡ record { result = ok d; db = after }
unfolding cancel_order
cancel_order-repeat env env' platform_order_id again id {db} {after} d i e h since e' smooth =
    let done = transaction-ok env (cancel_order_tx env platform_order_id) db d h in
    let answer = cancel_order_tx-Answer env platform_order_id id db d _ e done in
    let later =
      Reach-saved_answer id (cancel_order-IsNumbered env platform_order_id db i) since
        (Answer-saves answer) in
    transaction-commits env' (cancel_order_tx env' again) after d after smooth
      (cancel_order_tx-saved env' again id after smooth e' later)
