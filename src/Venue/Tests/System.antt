-- ===== src/Venue/Tests/System.antt =====
-- The venue as a whole at concrete inputs: repeated commands and an answered cancellation.
use avito_kitchen.Base.{◌≡◌, refl, [], ◌∷◌, codes}
use avito_kitchen.Venue.Store.{Db}
use avito_kitchen.Venue.Decide.Apply.{decide_order}
use avito_kitchen.Venue.Cancel.{cancel_order, confirmed}
use avito_kitchen.Venue.Lifecycle.{start_preparing}
use avito_kitchen.Venue.System.{prepares, cancels, here, next}
use avito_kitchen.Venue.System.Repeat.{decide_order-repeat, cancel_order-repeat}
use avito_kitchen.Venue.Tests.{
  env, command, empty_db, empty_db-IsNumbered, decision, decided, accepted_db,
  accepted_db-IsNumbered, cancelled,
}
use avito_kitchen.Shared.Transaction.{ok}

-- After its decision the order is cancelled.
abbrev withdrawn_db : Db
withdrawn_db = (cancel_order env (codes "order") (decide_order env command empty_db).db).db

decide_order-repeat_example :
    decide_order env (record command { menu_version = 8 }) withdrawn_db
    ≡ record { result = ok decision; db = withdrawn_db }
decide_order-repeat_example =
    decide_order-repeat env env command (record command { menu_version = 8 }) (codes "order")
      decision empty_db-IsNumbered refl decided (next here (cancels env (codes "order"))) refl
      (λ f. refl)

-- After the answer the kitchen tries to start the order.
abbrev tried_db : Db
tried_db = (start_preparing env (0 ∷ []) (cancel_order env (codes "order") accepted_db).db).db

cancel_order-repeat_example :
    cancel_order env (codes "order") tried_db ≡ record { result = ok confirmed; db = tried_db }
cancel_order-repeat_example =
    cancel_order-repeat env env (codes "order") (codes "order") (codes "order") confirmed
      accepted_db-IsNumbered refl cancelled (next here (prepares env (0 ∷ []))) refl (λ f. refl)
