-- ===== src/Venue/Cancel/Effects.antt =====
-- What an answered cancellation leaves behind: `CancelOrder` of internal/venue/repository/orders.go.
use avito_kitchen.Base.{
  ℕ, ◌+◌, ◌≡◌, true, false, Option, none, some, List, [], ◌∷◌, Text, same, ◌&&◌, if◌then◌else◌,
  find_row, insert_row,
}
use avito_kitchen.Venue.Store.{
  CancellationDecision, MenuItemRow, VenueOrderRow, VenueOrderItemRow, VenueOutboxRow, Db, Env,
}
use avito_kitchen.Venue.Store
use avito_kitchen.Venue.Decide.{is_for}
use avito_kitchen.Venue.Lifecycle.{has_id}
use avito_kitchen.Venue.Cancel.{give_back, is_ordered}

-- How much of an item an order has taken.
abbrev pub ordered_quantity : Text → Text → List VenueOrderItemRow → ℕ
ordered_quantity order_id external_id [] = 0
ordered_quantity order_id external_id (r ∷ rs) =
    let rest = ordered_quantity order_id external_id rs in
    if same r.venue_order_id order_id && same r.external_item_id external_id
    then r.quantity
    else rest

-- A stock that is counted has so much more.
abbrev pub IsMore : ℕ → Option ℕ → Option ℕ → Type 0
IsMore n none none = Unit
IsMore n (some k) (some m) = m ≡ k + n
IsMore n _ _ = ⊥

-- Each item has back what the order took of it, and is otherwise offered as before.
abbrev pub AreRestocked :
    Text → List VenueOrderItemRow → List MenuItemRow → List MenuItemRow → Type 0
AreRestocked order_id ordered [] [] = Unit
AreRestocked order_id ordered (i ∷ is) (j ∷ js) =
    (j.external_id ≡ i.external_id)
    × (j.price_amount ≡ i.price_amount)
    × (j.is_available ≡ i.is_available)
    × IsMore (ordered_quantity order_id i.external_id ordered) i.stock_quantity j.stock_quantity
    × AreRestocked order_id ordered is js
AreRestocked order_id ordered _ _ = ⊥

-- The order stands under its identifier with a status and an answer, and every other is untouched.
pub record IsAnswered (id : Text) (row : VenueOrderRow) (reached : Store.OrderStatus)
    (d : CancellationDecision) (db db' : Db) : Type 0 where
  pub row' : VenueOrderRow
  pub found : find_row (is_for id) db'.orders ≡ some row'
  pub status : row'.status ≡ reached
  pub answer : row'.cancellation_decision ≡ some d
  pub decision : row'.decision_details ≡ row.decision_details
  pub others :
      (k : Text)
      → same row.id k ≡ false
      → find_row (has_id k) db'.orders ≡ find_row (has_id k) db.orders

pub data Effect (env : Env) (id : Text) (db : Db) (d : CancellationDecision) (db' : Db)
    : Type 0 where
  repeats :
      (row : VenueOrderRow)
      → find_row (is_for id) db.orders ≡ some row
      → row.cancellation_decision ≡ some d
      → db' ≡ db
      → Effect env id db d db'
  cancels :
      (row : VenueOrderRow) (event : VenueOutboxRow)
      → find_row (is_for id) db.orders ≡ some row
      → row.cancellation_decision ≡ none
      → row.status ≡ Store.accepted
      → d ≡ record { is_cancelled = true; current_status = Store.cancelled }
      → IsAnswered id row Store.cancelled d db db'
      → AreRestocked row.id db.order_items db.menu_items db'.menu_items
      → db'.outbox ≡ insert_row event db.outbox
      → (event.venue_order_id ≡ row.id)
        × (event.sequence ≡ row.next_event_sequence)
        × (event.event_type ≡ Store.order_cancelled)
        × (event.processed_at ≡ none)
      → Effect env id db d db'
  refuses :
      (row : VenueOrderRow)
      → find_row (is_for id) db.orders ≡ some row
      → row.cancellation_decision ≡ none
      → Store.same_status row.status Store.accepted ≡ false
      → d ≡ record { is_cancelled = false; current_status = row.status }
      → IsAnswered id row row.status d db db'
      → (db'.menu_items ≡ db.menu_items) × (db'.outbox ≡ db.outbox)
      → Effect env id db d db'

abbrev back : ℕ → Text → List VenueOrderItemRow → MenuItemRow → MenuItemRow
back now order_id ordered item = elim (find_row (is_ordered order_id item) ordered) [
  | none ↦ item
  | some r ↦ give_back now r.quantity item
]
