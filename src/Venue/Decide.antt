-- ===== src/Venue/Decide.antt =====
-- The decision on an order: `DecideOrder` of internal/venue/repository/orders.go.
pub mod Apply
pub mod Stable
pub mod Totals
use avito_kitchen.Base.{
  ℕ, suc, ◌+◌, ◌*◌, ◌-◌, ◌/◌, Bool, true, false, Option, none, some, List, [], ◌∷◌, map, Text, ◌==◌,
  same, ltb, leb, ◌&&◌, ◌||◌, not, if◌then◌else◌, find_row, select, exists_row, update_where,
  insert_row, map_get, map_set,
}
use avito_kitchen.Venue.Store.{
  OrderItem, OrderCommand, OrderDecision, ManagedOrderItem, MenuItemRow, VenueOrderRow,
  VenueOrderItemRow, Reason, Db, Env, RepoError, internal,
}
use avito_kitchen.Venue.Store
use avito_kitchen.Venue.Run.{Tx, run, new_uuid, cast_uuid, transaction}
use avito_kitchen.Shared.Transaction.{Result, ok, err, refuse, guard, Outcome, ◌>>=◌, ◌>>◌}

-- `math.MaxInt64`.
abbrev pub max_int64 : ℕ
max_int64 = 9223372036854775807

abbrev pub is_for : Text → VenueOrderRow → Bool
is_for platform_order_id r = same r.platform_order_id platform_order_id

-- `findDecision`; `none` is `pgx.ErrNoRows`.
unfoldable pub find_decision : Env → Db → Text → Result RepoError (Option OrderDecision)
find_decision env db platform_order_id = do
  run env Store.find_decision
  elim (find_row (is_for platform_order_id) db.orders) [
    | none ↦ ok none
    | some r ↦ ok (some r.decision_details)
  ]

-- `SELECT max(version)`: no row gives NULL, which `Scan` cannot put into an `int64`.
unfoldable pub max_version : List ℕ → Option ℕ
max_version [] = none
max_version (v ∷ vs) = elim (max_version vs) [
  | none ↦ some v
  | some w ↦ some (if leb v w then w else v)
]

abbrev pub rejected_decision : Reason → ℕ → List Text → OrderDecision
rejected_decision reason version unavailable = record {
  external_order_id = [];
  reason = some reason;
  accepted_items_amount = 0;
  currency = [];
  current_menu_version = version;
  unavailable_item_ids = unavailable;
}

abbrev pub accepted_decision : Text → ℕ → Text → OrderDecision
accepted_decision order_id total currency = record {
  external_order_id = order_id;
  reason = none;
  accepted_items_amount = total;
  currency = currency;
  current_menu_version = 0;
  unavailable_item_ids = [];
}

-- The row of a rejected order.
abbrev pub rejected_row : Env → OrderCommand → Text → Text → OrderDecision → VenueOrderRow
rejected_row env command id platform_id decision = record {
  id = id;
  platform_order_id = platform_id;
  menu_version = command.menu_version;
  decision_reason = decision.reason;
  status = Store.rejected;
  items_amount = none;
  currency = none;
  decision_details = decision;
  next_event_sequence = 1;
  cancellation_decision = none;
  created_at = env.now;
  updated_at = env.now;
}

-- The unique key `platform_order_id` and the primary key of `venue_orders`.
abbrev pub is_taken : Text → Text → VenueOrderRow → Bool
is_taken id platform_id r = same r.id id || same r.platform_order_id platform_id

-- `insertRejected`, and the decision that the transaction returns.
unfoldable pub insert_rejected : Env → OrderCommand → Text → OrderDecision → Db → Tx OrderDecision
insert_rejected env command platform_id decision db = do
  id ← new_uuid env 0
  run env Store.insert_rejected_order
  refuse (exists_row (is_taken id platform_id) db.orders) (internal Store.insert_rejected_order)
  ok (
    decision,
    record db { orders = insert_row (rejected_row env command id platform_id decision) db.orders },
  )

-- `external_id=ANY($1::text[])`.
abbrev pub is_requested : List OrderItem → MenuItemRow → Bool
is_requested items r = exists_row (λ (i : OrderItem). same i.external_item_id r.external_id) items

-- The loop that fills the map `menu`.
unfoldable pub menu_of_rows :
    List (Text × MenuItemRow) → List MenuItemRow → List (Text × MenuItemRow)
menu_of_rows m [] = m
menu_of_rows m (r ∷ rs) = menu_of_rows (map_set r.external_id r m) rs

-- The results of the loop over `command.Items`.
pub record Priced : Type 0 where
  pub unavailable : List Text
  pub items : List ManagedOrderItem
  pub total : ℕ
  pub currency : Text

abbrev pub add_unavailable : Text → Option Priced → Option Priced
add_unavailable id none = none
add_unavailable id (some p) = some (record p { unavailable = id ∷ p.unavailable })

abbrev pub add_managed : ManagedOrderItem → Option Priced → Option Priced
add_managed item none = none
add_managed item (some p) = some (record p { items = item ∷ p.items })

-- `item.price != requested.ExpectedUnitPrice || (currency != "" && currency != item.currency)`.
abbrev pub is_changed : Text → OrderItem → MenuItemRow → Bool
is_changed currency requested item =
    not (item.price_amount == requested.expected_unit_price)
    || not (same currency []) && not (same currency item.currency)

abbrev pub is_short : ℕ → Option ℕ → Bool
is_short quantity none = false
is_short quantity (some stock) = ltb stock quantity

-- `!item.available || (item.stock != nil && *item.stock < requested.Quantity)`.
abbrev pub is_unavailable : OrderItem → MenuItemRow → Bool
is_unavailable requested item =
    not item.is_available || is_short requested.quantity item.stock_quantity

abbrev pub managed_item : OrderItem → MenuItemRow → ManagedOrderItem
managed_item requested item = record {
  external_item_id = requested.external_item_id;
  name = item.name;
  quantity = requested.quantity;
  unit_price = item.price_amount;
  total_price = item.price_amount * requested.quantity;
}

-- The loop over `command.Items`; `none` is the early return with the reason "menu_changed".
unfoldable pub price_items :
    List (Text × MenuItemRow) → Text → ℕ → List OrderItem → Result RepoError (Option Priced)
price_items menu currency total [] =
    ok (some (record { unavailable = []; items = []; total = total; currency = currency }))
price_items menu currency total (r ∷ rs) = elim (map_get r.external_item_id menu) [
  | none ↦ do
    rest ← price_items menu currency total rs
    ok (add_unavailable r.external_item_id rest)
  | some item ↦ elim (is_changed currency r item) [
    | true ↦ ok none
    | false ↦ elim (is_unavailable r item) [
      | true ↦ do
        rest ← price_items menu currency total rs
        ok (add_unavailable r.external_item_id rest)
      | false ↦ do
        refuse (ltb 0 item.price_amount && ltb (max_int64 / item.price_amount) r.quantity)
            (internal Store.order_total_overflow)
        refuse (ltb (max_int64 - item.price_amount * r.quantity) total)
            (internal Store.order_total_overflow)
        rest ← price_items menu item.currency (total + item.price_amount * r.quantity) rs
        ok (add_managed (managed_item r item) rest)
    ]
  ]
]
