-- ===== src/Venue/System/Steps.antt =====
-- The answers of the venue and its numbering of events under the steps of
-- internal/venue/repository in any order.
use avito_kitchen.Base.{◌∙◌, refl}
use avito_kitchen.Venue.Store.{
  OrderStatus, EventType, OrderDecision, CancellationDecision, ManagedOrder, CallbackJob,
  VenueOrderRow, VenueOutboxRow, Db, Env, Fault,
}
use avito_kitchen.Venue.Store
use avito_kitchen.Venue.Lifecycle.{start_preparing, mark_ready, complete}
use avito_kitchen.Venue.Lifecycle.Events.{IsNumbered, transition_order-IsNumbered}
use avito_kitchen.Venue.Callbacks.{delivered, put_off, complete_callback, retry_callback}
use avito_kitchen.Venue.Numbering.{decide_order-IsNumbered, cancel_order-IsNumbered}
use avito_kitchen.Venue.Worker.Rounds.{claim_callback-IsNumbered, update_leased-IsNumbered}
use avito_kitchen.Venue.System.{
  Step, decides, cancels, prepares, readies, completes, claims, delivers, puts_off, edits_menu,
  Reach, here, next,
}
use avito_kitchen.Venue.System.Kept.{
  Kept, same_orders-Kept, decide_order-Kept, cancel_order-Kept, transition_order-Kept,
  update_leased-orders, claim_callback-orders,
}

module _ {db : Db} (i : IsNumbered db) where
  Step-Kept : {db' : Db} → Step db db' → Kept db db'
  unfolding start_preparing mark_ready complete complete_callback retry_callback
  Step-Kept (decides env command) = decide_order-Kept env command db
  Step-Kept (cancels env platform_order_id) = cancel_order-Kept env platform_order_id db i
  Step-Kept (prepares env order_id) =
      transition_order-Kept env order_id Store.accepted Store.preparing Store.order_preparing db
  Step-Kept (readies env order_id) =
      transition_order-Kept env order_id Store.preparing Store.ready Store.order_ready db
  Step-Kept (completes env order_id) =
      transition_order-Kept env order_id Store.ready Store.completed Store.order_completed db
  Step-Kept {db'} (claims env lease h) =
      same_orders-Kept db db' (claim_callback-orders env lease db h)
  Step-Kept (delivers env job) =
      same_orders-Kept db (complete_callback env job db).1
        (update_leased-orders env Store.complete_callback job (delivered env.now) db)
  Step-Kept (puts_off env job available_at) =
      same_orders-Kept db (retry_callback env job available_at db).1
        (update_leased-orders env Store.retry_callback job (put_off available_at) db)
  Step-Kept {db'} (edits_menu a b c) =
      same_orders-Kept db (record db { is_accepting_orders = a; menu_versions = b; menu_items = c })
        refl

  Step-IsNumbered : {db' : Db} → Step db db' → IsNumbered db'
  unfolding start_preparing mark_ready complete complete_callback retry_callback
  Step-IsNumbered (decides env command) = decide_order-IsNumbered env command db i
  Step-IsNumbered (cancels env platform_order_id) =
      cancel_order-IsNumbered env platform_order_id db i
  Step-IsNumbered (prepares env order_id) =
      transition_order-IsNumbered env order_id Store.accepted Store.preparing Store.order_preparing
        db i
  Step-IsNumbered (readies env order_id) =
      transition_order-IsNumbered env order_id Store.preparing Store.ready Store.order_ready db i
  Step-IsNumbered (completes env order_id) =
      transition_order-IsNumbered env order_id Store.ready Store.completed Store.order_completed db
        i
  Step-IsNumbered (claims env lease h) = claim_callback-IsNumbered env lease db i h
  Step-IsNumbered (delivers env job) =
      update_leased-IsNumbered env Store.complete_callback job (delivered env.now) db
        (λ r id n. refl) i
  Step-IsNumbered (puts_off env job available_at) =
      update_leased-IsNumbered env Store.retry_callback job (put_off available_at) db
        (λ r id n. refl) i
  Step-IsNumbered (edits_menu _ _ _) = record {
    once = i.once;
    positive = i.positive;
    keyed = i.keyed;
  }

pub Reach-IsNumbered : {db db' : Db} → IsNumbered db → Reach db db' → IsNumbered db'
Reach-IsNumbered i here = i
Reach-IsNumbered i (next r s) = Step-IsNumbered (Reach-IsNumbered i r) s

-- An answer that stands is there after any steps of the venue.
pub Reach-Kept : {db db' : Db} → IsNumbered db → Reach db db' → Kept db db'
Reach-Kept {db} i here platform_id row found = same_orders-Kept db db refl platform_id row found
Reach-Kept {db} i (next r s) platform_id row found =
    let (before, known, stood) = Reach-Kept i r platform_id row found in
    let (after, there, stands) = Step-Kept (Reach-IsNumbered i r) s platform_id before known in
    (
      after,
      there,
      record {
        decided = stands.decided ∙ stood.decided;
        answered = λ d h. stands.answered d (stood.answered d h);
      },
    )
