-- ===== src/Platform/Checkout/Repeat.antt =====
-- A checkout under a used idempotency key: `CreateOrder` of internal/platform/repository/orders.go.
use avito_kitchen.Base.{◌≡◌, ◌≢◌, same_ne, subst, sym, false, Text, same, arith}
use avito_kitchen.Platform.Store.{OrderRow, VenueRow, Db, Env, Fault}
use avito_kitchen.Platform.Store
use avito_kitchen.Platform.Domain.{Order, CreateOrderCommand}
use avito_kitchen.Platform.Checkout.Create.{create_order_tx, create_order}
use avito_kitchen.Platform.Consistency.Placing.{create_order_tx-Checkout}
use avito_kitchen.Platform.System.{World, creates, Reach, next, IsFresh}
use avito_kitchen.Platform.System.Safety.{reached-IsInvariant}
use avito_kitchen.Platform.Run.{transaction-ok, transaction-fails}
use avito_kitchen.Shared.Transaction.{ok, err}
use avito_kitchen.Platform.Checkout.Saved.{IsSaved, Checkout-IsSaved, Reach-IsSaved, saved_lookup}

-- A checkout that has returned an order, and what the platform has come to since.
module _ {start w v : World} (env env' : Env) (command command' : CreateOrderCommand)
    (order : Order) (fresh : IsFresh start) (before : Reach start w)
    (h : (create_order env command w.db).result ≡ ok order)
    (since : Reach (record w { db = (create_order env command w.db).db }) v)
    (same_customer : command'.request.customer_ref ≡ command.request.customer_ref)
    (same_key : command'.idempotency_key ≡ command.idempotency_key)
    (smooth : (f : Fault) → env'.fails f ≡ false) where
  after-IsSaved :
      IsSaved env command'.request.customer_ref command'.idempotency_key command.request_hash order
        v.db
  unfolding create_order
  after-IsSaved =
      let after = (create_order env command w.db).db in
      let done = transaction-ok env (create_order_tx env command) w.db order h in
      let saved = Checkout-IsSaved (create_order_tx-Checkout env command w.db order after done) in
      let i = reached-IsInvariant fresh (next before (creates env command)) in
      let later = Reach-IsSaved i since saved in
      subst (λ (k : Text). IsSaved env k command'.idempotency_key command.request_hash order v.db)
        (sym same_customer)
        (subst
          (λ (k : Text). IsSaved env command.request.customer_ref k command.request_hash order v.db)
          (sym same_key) later)

  conflicting :
      same command.request_hash command'.request_hash ≡ false
      → create_order_tx env' command' v.db ≡ err Store.idempotency_key_reused
  unfolding create_order_tx
  conflicting other = ground (
    arith,
    saved_lookup env' v.db smooth after-IsSaved,
    other,
    smooth Store.lock_idempotency_scope,
  )

  -- A checkout that returns its order, in any world that the platform can come to from one without
  -- orders, makes every later one with the same customer and key, but another request hash,
  -- whatever the platform has done since, fail as a reused key and change nothing, where the server
  -- does not fail.
  pub create_order-conflict :
      command'.request_hash ≢ command.request_hash
      → create_order env' command' v.db
        ≡ record { result = err Store.idempotency_key_reused; db = v.db }
  unfolding create_order
  create_order-conflict other =
      transaction-fails env' (create_order_tx env' command') v.db _ smooth
        (conflicting (same_ne _ _ (λ e. other (sym e))))
