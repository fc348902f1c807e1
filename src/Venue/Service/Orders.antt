-- ===== src/Venue/Service/Orders.antt =====
-- `OrdersService` of internal/venue/service/service.go.
use avito_kitchen.Base.{
  ◌/◌, Bool, not, ◌&&◌, ◌||◌, ltb, List, [], ◌∷◌, Text, codes, length, same, exists_row,
}
use avito_kitchen.Venue.Store.{
  OrderItem, OrderCommand, OrderDecision, CancellationDecision, ManagedOrder, Db, Env, RepoError,
}
use avito_kitchen.Venue.Cancel.{cancel_order}
use avito_kitchen.Venue.Decide.{max_int64}
use avito_kitchen.Venue.Decide.Apply.{decide_order}
use avito_kitchen.Venue.Lifecycle.{list_orders, get_order, start_preparing, mark_ready, complete}
use avito_kitchen.Venue.Service.{map_error}
use avito_kitchen.Shared.Errors.{AppError, validation}
use avito_kitchen.Shared.Strings.{rune_count, valid_required_text}
use avito_kitchen.Shared.Transaction.{Result, ok, err, refuse, Outcome, ◌>>◌}
use avito_kitchen.Shared.Uuid.{is_valid}

-- `validationError`.
abbrev pub validation_error : AppError
validation_error = record {
  kind = validation;
  code = codes "VALIDATION_FAILED";
  detail = codes "order command is invalid";
}

-- `item.ExpectedUnitPrice > 0 && int64(item.Quantity) > math.MaxInt64/item.ExpectedUnitPrice`.
abbrev pub overflows : OrderItem → Bool
overflows i = ltb 0 i.expected_unit_price && ltb (max_int64 / i.expected_unit_price) i.quantity

abbrev pub is_invalid_item : OrderItem → Bool
is_invalid_item i =
    not (valid_required_text i.external_item_id 128)
    || not (valid_required_text i.name 200)
    || ltb i.quantity 1
    || ltb 100 i.quantity
    || overflows i

-- The loop over the items of a command; `seen` holds the identifiers of those before.
unfoldable pub validate_items : List Text → List OrderItem → Result AppError (Unit {0})
unfolding valid_required_text
validate_items seen [] = ok tt
validate_items seen (i ∷ is) = do
  refuse (is_invalid_item i) validation_error
  refuse (exists_row (same i.external_item_id) seen) validation_error
  validate_items (i.external_item_id ∷ seen) is

-- `keyLength < 16 || keyLength > 128`.
unfoldable pub is_invalid_key : Text → Bool
unfolding rune_count
is_invalid_key key = ltb (rune_count key) 16 || ltb 128 (rune_count key)

-- The checks of `DecideOrder`.
unfoldable pub validate_command : Text → OrderCommand → Result AppError (Unit {0})
unfolding validate_items is_invalid_key is_valid
validate_command key command = do
  refuse
      (is_invalid_key key
        || not (is_valid command.platform_order_id)
        || ltb command.menu_version 1
        || ltb (length command.items) 1
        || ltb 100 (length command.items))
      validation_error
  validate_items [] command.items

-- `mapError` on the outcome of a call, and on the result of a read.
abbrev pub mapped : {A : Type 0} → Result RepoError A → Result AppError A
mapped (err e) = err (map_error e)
mapped (ok a) = ok a

abbrev pub answer : {A : Type 0} → Outcome RepoError A Db → Outcome AppError A Db
answer o = record { result = mapped o.result; db = o.db }

-- `(*OrdersService).DecideOrder`.
unfoldable pub decide : Env → Text → OrderCommand → Db → Outcome AppError OrderDecision Db
unfolding validate_command decide_order map_error
decide env key command db = elim (validate_command key command) [
  | err e ↦ record { result = err e; db = db }
  | ok _ ↦ answer (decide_order env command db)
]

-- The other operations.
unfoldable pub all_orders : Env → Db → Result AppError (List ManagedOrder)
unfolding list_orders map_error
all_orders env db = mapped (list_orders env db)

unfoldable pub one_order : Env → Db → Text → Result AppError ManagedOrder
unfolding get_order map_error
one_order env db order_id = mapped (get_order env db order_id)

unfoldable pub cancel : Env → Text → Db → Outcome AppError CancellationDecision Db
unfolding cancel_order map_error
cancel env platform_order_id db = answer (cancel_order env platform_order_id db)

-- The three transitions that the staff can ask for.
pub data Transition : Type 0 where
  starts becomes_ready completes : Transition

unfoldable pub transition : Transition → Env → Text → Db → Outcome AppError ManagedOrder Db
unfolding start_preparing mark_ready complete map_error
transition starts env order_id db = answer (start_preparing env order_id db)
transition becomes_ready env order_id db = answer (mark_ready env order_id db)
transition completes env order_id db = answer (complete env order_id db)
