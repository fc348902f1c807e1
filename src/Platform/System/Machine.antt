-- ===== src/Platform/System/Machine.antt =====
-- The life of an order on the platform as an abstract machine over its two statuses: no rows, no
-- jobs, no time. Its moves are those of docs/decisions/order-state-machine.md, by who makes them,
-- with the cancellation of a pending order, which that document states below its tables, and with
-- two that the tables leave out: the cancellation of an order that has gone on after the customer
-- asked for it, and that of an order of any cancellation status by the venue itself.
use avito_kitchen.Base.{ℕ, ◌≡◌, Bool, true, false, ◌==◌, ◌||◌, ◌&&◌, arith}
use avito_kitchen.Platform.Store.{
  OrderStatus, CancellationStatus, OrderRow, same_status, is_requested,
}
use avito_kitchen.Platform.Store

abbrev cancellation_number : CancellationStatus → ℕ
cancellation_number Store.no_cancellation = 0
cancellation_number Store.requested = 1
cancellation_number Store.confirmed = 2
cancellation_number CancellationStatus.rejected = 3
cancellation_number Store.failed = 4

abbrev pub same_cancellation : CancellationStatus → CancellationStatus → Bool
same_cancellation a b = cancellation_number a == cancellation_number b

-- The operations that move an order that is there, each named for who or what makes it.
pub data Actor : Type 0 where
  by_checkout by_customer by_decision by_cancellation_decision : Actor
  by_retry by_callback by_nobody : Actor

abbrev decides : OrderStatus → OrderStatus → Bool
decides Store.pending_confirmation Store.accepted = true
decides Store.pending_confirmation OrderStatus.rejected = true
decides _ _ = false

abbrev cooks : OrderStatus → OrderStatus → Bool
cooks Store.accepted Store.preparing = true
cooks Store.preparing Store.ready = true
cooks Store.ready Store.completed = true
cooks _ _ = false

abbrev can_ask : OrderStatus → CancellationStatus → Bool
can_ask Store.accepted Store.no_cancellation = true
can_ask Store.accepted Store.failed = true
can_ask _ _ = false

-- The venue itself cancels an order before it is ready.
abbrev is_before_ready : OrderStatus → Bool
is_before_ready Store.accepted = true
is_before_ready Store.preparing = true
is_before_ready _ = false

abbrev is_stopped : OrderStatus → CancellationStatus → Bool
is_stopped s c = same_status s Store.cancelled && same_cancellation c Store.confirmed

-- The moves from one pair of statuses to another that each operation may make. The confirmation of
-- a cancellation that was asked for cancels the order whatever it has come to meanwhile.
abbrev moves_by : Actor → OrderStatus → CancellationStatus → OrderStatus → CancellationStatus → Bool
moves_by by_customer s c s' c' =
    same_status s Store.pending_confirmation
      && same_cancellation c Store.no_cancellation
      && is_stopped s' c'
    || can_ask s c && same_status s s' && same_cancellation c' Store.requested
moves_by by_decision s c s' c' = decides s s' && same_cancellation c c'
moves_by by_cancellation_decision s c s' c' =
    is_requested c
    && (is_stopped s' c' || same_status s s' && same_cancellation c' CancellationStatus.rejected)
moves_by by_retry s c s' c' =
    same_status s Store.pending_confirmation
      && same_status s' Store.confirmation_expired
      && same_cancellation c c'
    || is_requested c && same_status s s' && same_cancellation c' Store.failed
moves_by by_callback s c s' c' =
    cooks s s' && same_cancellation c c' || is_before_ready s && is_stopped s' c'
moves_by _ s c s' c' = false

abbrev pub allows :
    Actor → OrderStatus → CancellationStatus → OrderStatus → CancellationStatus → Bool
allows by s c s' c' = same_status s s' && same_cancellation c c' || moves_by by s c s' c'

-- The machine on two rows of one order.
abbrev pub advances : Actor → OrderRow → OrderRow → Bool
advances by o o' = allows by o.status o.cancellation_status o'.status o'.cancellation_status

abbrev pub is_final : OrderStatus → Bool
is_final OrderStatus.rejected = true
is_final Store.confirmation_expired = true
is_final Store.cancelled = true
is_final _ = false

pub advances_refl : (by : Actor) (o : OrderRow) → advances by o o ≡ true
advances_refl by o = ground arith

-- A checkout begins an order, and nothing else does.
abbrev pub begins : Actor → OrderRow → Bool
begins by_checkout o =
    same_status o.status Store.pending_confirmation
    && same_cancellation o.cancellation_status Store.no_cancellation
begins _ o = false

-- A rejected, expired or cancelled order stays as it is.
pub allows-is_final :
    (by : Actor) (s s' : OrderStatus) (c c' : CancellationStatus)
    → is_final s ≡ true
    → is_requested c ≡ false
    → allows by s c s' c' ≡ true
    → (s' ≡ s) × (c' ≡ c)
allows-is_final by s s' c c' final quiet h = ground arith
