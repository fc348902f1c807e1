-- ===== src/Platform/System/Safety.antt =====
-- What the reachable worlds promise about orders.
use avito_kitchen.Base.{
  ◌≡◌, refl, Bool, true, false, Option, none, some, List, Text, find_row, arith, inl, inr,
  Option-cases,
}
use avito_kitchen.Platform.Store.{OrderRow, is_requested}
use avito_kitchen.Platform.Orders.{has_id}
use avito_kitchen.Platform.Consistency.{seen}
use avito_kitchen.Platform.System.{World, Step, Reach, here, next, IsFresh}
use avito_kitchen.Platform.System.Machine.{Actor, advances, begins, is_final, allows-is_final}
use avito_kitchen.Platform.System.Invariant.{actor, IsInvariant, Step-Advances, Reach-IsInvariant}

IsFresh-IsInvariant : {w : World} → IsFresh w → IsInvariant w
IsFresh-IsInvariant {w} fresh = record {
  consistent = record {
    keyed = rw fresh.orders tt;
    sound = λ id. rw fresh.orders refl;
    jobs = λ id type. rw (fresh.orders, fresh.outbox) refl;
  };
  distinct = rw fresh.outbox tt;
  named = λ job. rw fresh.held (λ held. elim held [ ]);
}

-- In every world that the platform can come to from one without orders, by any sequence of its
-- operations in any environments, orders and jobs agree (no two orders share an identifier; a
-- cancelled order has a confirmed cancellation and no other order has one, only an accepted order
-- comes to any other cancellation status, and totals add up; each order has exactly the unprocessed
-- jobs that its two statuses call for), no two jobs share an identifier, and each job that a worker
-- has ever claimed has a row of its order and type.
pub reached-IsInvariant : {w v : World} → IsFresh w → Reach w v → IsInvariant v
reached-IsInvariant fresh r = Reach-IsInvariant (IsFresh-IsInvariant fresh) r

-- What `seen` tells of an order that it finds.
seen-some :
    (g : OrderRow → Bool) (id : Text) (xs : List OrderRow)
    → seen g false id xs ≡ true
    → (o : OrderRow) × (find_row (has_id id) xs ≡ some o) × (g o ≡ true)
seen-some g id xs h = elim (Option-cases (find_row (has_id id) xs)) [
  | inl absent ↦ absurd (ground arith)
  | inr (o, found) ↦ (o, found, ground arith)
]

-- One step as the abstract machine sees one order: it begins, it stays or moves as the maker of the
-- step may move it, and it never goes away.
abbrev pub Moved : Actor → Option OrderRow → Option OrderRow → Type 0
Moved by none none = Unit
Moved by none (some o') = begins by o' ≡ true
Moved by (some o) none = ⊥
Moved by (some o) (some o') = advances by o o' ≡ true

-- Every step of the platform that is taken in a world it can come to from one without orders is,
-- for each order, a move of the abstract machine that the operation of that step may make: only a
-- checkout begins an order, as pending and without a cancellation, no step takes an order away, and
-- its two statuses stay or change as the machine allows to a customer, to a decision of the venue
-- on the order or on its cancellation, to a retry or to a callback.
pub reached-Moved :
    {w v u : World}
    → IsFresh w
    → Reach w v
    → (s : Step v u) (id : Text)
    → Moved (actor s) (find_row (has_id id) v.db.orders) (find_row (has_id id) u.db.orders)
reached-Moved {v = v} {u = u} fresh r s id =
    let a = Step-Advances (reached-IsInvariant fresh r) s in
    elim (Option-cases (find_row (has_id id) v.db.orders)) [
      | inr (o, known) ↦
          let (o', found, move) =
            seen-some (advances (actor s) o) id u.db.orders (a.moves id known) in
          rw (known, found) move
      | inl absent ↦ elim (Option-cases (find_row (has_id id) u.db.orders)) [
        | inl none_yet ↦ rw (absent, none_yet) tt
        | inr (o', found) ↦ rw (absent, found) (ground (arith, a.born id absent))
      ]
    ]

-- A final order in a later world.
abbrev IsKept : OrderRow → World → Text → Type 0
IsKept o u id =
    (o' : OrderRow) × (find_row (has_id id) u.db.orders ≡ some o')
    × (o'.status ≡ o.status)
    × (o'.cancellation_status ≡ o.cancellation_status)

reached-IsKept :
    {v u : World}
    → IsInvariant v
    → Reach v u
    → (id : Text) (o : OrderRow) → find_row (has_id id) v.db.orders ≡ some o
    → is_final o.status ≡ true
    → is_requested o.cancellation_status ≡ false
    → IsKept o u id
reached-IsKept i here id o found final quiet = (o, found, refl, refl)
reached-IsKept i (next {v} {u} t s) id o found final quiet =
    let (m, known, status, cancellation) = reached-IsKept i t id o found final quiet in
    let a = Step-Advances (Reach-IsInvariant i t) s in
    let (o', there, move) = seen-some (advances (actor s) m) id u.db.orders (a.moves id known) in
    let (p, q) =
      allows-is_final (actor s) m.status o'.status m.cancellation_status o'.cancellation_status
        (ground arith) (ground arith) move in
    (o', there, cc, cc)

-- Once an order is rejected, expired or cancelled, it is still there with the same two statuses
-- after any further operations of the platform.
pub reached-is_final :
    {w v u : World}
    → IsFresh w
    → Reach w v
    → Reach v u
    → (id : Text) {o : OrderRow} → find_row (has_id id) v.db.orders ≡ some o
    → is_final o.status ≡ true
    → (o' : OrderRow) × (find_row (has_id id) u.db.orders ≡ some o')
      × (o'.status ≡ o.status)
      × (o'.cancellation_status ≡ o.cancellation_status)
reached-is_final fresh r t id {o} found final =
    let i = reached-IsInvariant fresh r in
    reached-IsKept i t id o found final (ground (arith, i.consistent.sound id))
