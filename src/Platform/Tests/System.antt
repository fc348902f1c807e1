-- ===== src/Platform/Tests/System.antt =====
-- The whole platform at concrete inputs: a checkout, a round of the worker, a cancellation.
use avito_kitchen.Base.{
  ◌≡◌, refl, false, inr, ◌∷◌, some, [], codes, Text_discrete, ℕ_discrete, find_row, map_get,
  map_set,
}
use avito_kitchen.Platform.Store.{OrderRow, Db, Env}
use avito_kitchen.Platform.Store
use avito_kitchen.Platform.Orders.{
  has_id, cancel_order, cancelled_row, load_items, insert_order_history, cancelled_row,
  cancel_order_tx, cancel_switch, cancel_pending, get_order_by_access,
}
use avito_kitchen.Platform.Checkout.{
  find_idempotent_order, lock_checkout_venue, cast_ids, quantities, scan_items, price_items,
  insert_items,
}
use avito_kitchen.Platform.Checkout.Create.{
  create_order, create_order_tx, price_request, insert_checkout,
}
use avito_kitchen.Platform.Worker.{process_one}
use avito_kitchen.Platform.Run.{transaction}
use avito_kitchen.Platform.System.{World, creates, cancels, Reach, here, next, IsFresh}
use avito_kitchen.Platform.System.Invariant.{IsInvariant}
use avito_kitchen.Platform.System.Machine.{by_customer}
use avito_kitchen.Platform.System.Safety.{
  reached-IsInvariant, Moved, reached-Moved, reached-is_final,
}
use avito_kitchen.Platform.Consistency.{seen}
use avito_kitchen.Platform.System.Progress.{process_one-settles}
use avito_kitchen.Platform.System.Rounds.{Comes, process_one-Comes}
use avito_kitchen.Platform.Tests.{
  env, command, empty_db, round, placed, placed_db, placed_db-IsConsistent, claim_env, claimed,
}
use avito_kitchen.Platform.Checkout.Repeat.{create_order-conflict}
use avito_kitchen.Platform.Tests.Answers.{order, ordered, again}
use avito_kitchen.Shared.Transaction.{err, within_transaction}

abbrev empty_world : World
empty_world = record { db = empty_db; held = [] }

abbrev placed_world : World
placed_world = record empty_world { db = (create_order env command empty_db).db }

abbrev cancelled_world : World
cancelled_world = record empty_world {
  db = (cancel_order env (codes "order") (codes "token") placed_world.db).db;
}

empty_world-IsFresh : IsFresh empty_world
empty_world-IsFresh = record { orders = refl; outbox = refl; held = refl }

abbrev placing : Reach empty_world placed_world
placing = next here (creates env command)

abbrev cancelling : Reach placed_world cancelled_world
cancelling = next here (cancels env (codes "order") (codes "token"))

reached-IsInvariant_example : IsInvariant placed_world
reached-IsInvariant_example = reached-IsInvariant empty_world-IsFresh placing

order_found : find_row (has_id (codes "order")) placed_world.db.orders ≡ some placed
unfolding create_order create_order_tx transaction within_transaction find_idempotent_order
    price_request lock_checkout_venue cast_ids quantities scan_items price_items insert_checkout
    insert_items insert_order_history load_items Text_discrete ℕ_discrete map_get map_set
order_found = refl

reached-Moved_example :
    Moved by_customer
      (find_row (has_id (codes "order")) placed_world.db.orders)
      (find_row (has_id (codes "order")) cancelled_world.db.orders)
reached-Moved_example =
    reached-Moved empty_world-IsFresh placing (cancels env (codes "order") (codes "token"))
      (codes "order")

cancelled_found :
    find_row (has_id (codes "order")) cancelled_world.db.orders ≡ some (cancelled_row 100 placed)
unfolding create_order create_order_tx transaction within_transaction find_idempotent_order
    price_request lock_checkout_venue cast_ids quantities scan_items price_items insert_checkout
    insert_items insert_order_history load_items Text_discrete ℕ_discrete map_get map_set
    cancel_order cancel_order_tx cancel_switch cancel_pending get_order_by_access
cancelled_found = refl

reached-is_final_example :
    (o' : OrderRow) × (find_row
        (has_id (codes "order"))
        (cancel_order env (codes "order") (codes "token") cancelled_world.db).db.orders
      ≡ some o')
    × (o'.status ≡ Store.cancelled)
    × (o'.cancellation_status ≡ Store.confirmed)
reached-is_final_example =
    reached-is_final empty_world-IsFresh
      (next placing (cancels env (codes "order") (codes "token")))
      (next here (cancels env (codes "order") (codes "token"))) (codes "order") cancelled_found refl

create_order-conflict_example :
    create_order env (record again { request_hash = [] }) cancelled_world.db
    ≡ record { result = err Store.idempotency_key_reused; db = cancelled_world.db }
create_order-conflict_example =
    create_order-conflict env env command (record again { request_hash = [] }) order
      empty_world-IsFresh here ordered cancelling refl refl (λ f. refl) (λ e. cc)

process_one-Comes_example : Comes placed_world (process_one round placed_world.db).1
process_one-Comes_example = process_one-Comes round placed_world (λ u. (u.held, here))

process_one-settles_example :
    seen
      (λ o. Store.is_pending o.status)
      false
      (codes "order")
      (process_one (record round { claim_env = claim_env }) placed_db).1.orders
    ≡ false
process_one-settles_example =
    process_one-settles (record round { claim_env = claim_env }) placed_db placed_db-IsConsistent
      (refl, tt) claimed refl (inr (_, refl)) refl
      (record { works = λ f. refl; id = 0 ∷ []; generates = refl })
