-- ===== src/Venue/System.antt =====
-- The venue as a whole: the calls of the platform, those of the kitchen and the worker of callbacks
-- over one database, in any order, with any environment at each call.
pub mod Kept
pub mod Steps
pub mod Repeat
use avito_kitchen.Base.{ℕ, Bool, ◌≡◌, List, Text}
use avito_kitchen.Venue.Store.{OrderCommand, CallbackJob, MenuItemRow, Db, Env}
use avito_kitchen.Venue.Decide.Apply.{decide_order}
use avito_kitchen.Venue.Cancel.{cancel_order}
use avito_kitchen.Venue.Lifecycle.{start_preparing, mark_ready, complete}
use avito_kitchen.Venue.Callbacks.{claim_callback, complete_callback, retry_callback}
use avito_kitchen.Shared.Transaction.{ok}

-- One call that writes, whatever its outcome, or a change of the menu by hand.
pub data Step (db : Db) : Db → Type 0 where
  decides : (env : Env) (command : OrderCommand) → Step db (decide_order env command db).db
  cancels :
      (env : Env) (platform_order_id : Text) → Step db (cancel_order env platform_order_id db).db
  prepares : (env : Env) (order_id : Text) → Step db (start_preparing env order_id db).db
  readies : (env : Env) (order_id : Text) → Step db (mark_ready env order_id db).db
  completes : (env : Env) (order_id : Text) → Step db (complete env order_id db).db
  claims :
      (env : Env) (lease : ℕ) {job : CallbackJob} {db' : Db}
      → claim_callback env lease db ≡ ok (job, db')
      → Step db db'
  delivers : (env : Env) (job : CallbackJob) → Step db (complete_callback env job db).1
  puts_off :
      (env : Env) (job : CallbackJob) (available_at : ℕ)
      → Step db (retry_callback env job available_at db).1
  edits_menu :
      (is_accepting_orders : Bool) (menu_versions : List ℕ) (menu_items : List MenuItemRow)
      → Step db (record db {
        is_accepting_orders = is_accepting_orders;
        menu_versions = menu_versions;
        menu_items = menu_items;
      })

pub data Reach (db : Db) : Db → Type 0 where
  here : Reach db db
  next : {db' db'' : Db} → Reach db db' → Step db' db'' → Reach db db''
