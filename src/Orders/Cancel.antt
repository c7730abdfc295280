-- ===== src/Orders/Cancel.antt =====
-- Cancelling an unpaid order: `cancelOrder` of apps/api/src/modules/orders/service.ts.
use zak_s_sizzling.Prelude.{
  ℕ, ◌≡◌, Bool, false, not, ◌&&◌, Option, none, some, ◌++◌, arith, ◌==◌, if◌then◌else◌,
  Option-cases, Bool-cases, inl, inr,
}
use zak_s_sizzling.Prelude.Text.{text}
use zak_s_sizzling.Prelude.Dict.{lookup, lookup-insert}
use zak_s_sizzling.Store.{
  Db, Order, OrderStatus, Payment, orders_changed, Error, http_error, ok, err, Proc, read, emit,
  update_where, ◌>>◌,
}
use zak_s_sizzling.Orders.Dto.{OrderDto, get_order_by_id}
use zak_s_sizzling.Kitchen.{order_not_found}
use zak_s_sizzling.Kitchen.Cancel.{already_cancelled_error}
use zak_s_sizzling.Payments.Confirm.{is_pending, paid_row}

pub paid_already_error : Order → Error
paid_already_error o =
    http_error 409 (o.order_number ++ text " is already paid, so it can't be cancelled")

-- Why no row was changed.
unfoldable pub cancel_order_refusal : Option Order → Error
cancel_order_refusal none = order_not_found
cancel_order_refusal (some o) = elim o.status [
  | OrderStatus.cancelled ↦ already_cancelled_error o
  | _ ↦ paid_already_error o
]

-- The condition of the update: pending, with no payment or one that is not paid.
abbrev pub can_cancel : Option Payment → Order → Bool
can_cancel payment o = is_pending o.status && not (paid_row payment)

abbrev pub cancelled_at_counter : ℕ → Order → Order
cancelled_at_counter now o = record o { status = OrderStatus.cancelled; cancelled_at = some now }

unfoldable pub cancel_pending : ℕ → ℕ → Proc (Unit {0})
unfolding cancel_order_refusal
cancel_pending now id db =
    let (orders, done) =
      update_where id (can_cancel (lookup id db.payments)) (cancelled_at_counter now) db.orders in
    if done
    then (ok tt, record db { orders = orders })
    else (err (cancel_order_refusal (lookup id db.orders)), db)

unfoldable pub cancel_order : ℕ → ℕ → Proc (Option OrderDto)
unfolding cancel_pending
cancel_order now id = do cancel_pending now id; emit orders_changed; read (get_order_by_id id)

-- A call that succeeds: the order was pending and not paid, it is cancelled with the time, and
-- nothing but the order's row and the events has changed.
pub cancel_order-cancelled :
    (now id j : ℕ) (db db' : Db) (dto : Option OrderDto)
    → cancel_order now id db ≡ (ok dto, db')
    → ((o : Order) × (lookup id db.orders ≡ some o)
        × (o.status ≡ OrderStatus.pending)
        × (paid_row (lookup id db.payments) ≡ false)
        × (lookup j db'.orders
            ≡ (if id == j then some (cancelled_at_counter now o) else lookup j db.orders)))
      × (db' ≡ record db { orders = db'.orders; events = db'.events })
unfolding cancel_order cancel_pending
cancel_order-cancelled now id j db db' dto r = elim (Option-cases (lookup id db.orders)) [
  | inl e ↦ ground (arith, e)
  | inr (o, e) ↦ elim (Bool-cases (can_cancel (lookup id db.payments) o)) [
    | inr c ↦ ground (arith, e, c)
    | inl c ↦ (
      (
        o,
        e,
        ground (arith, c),
        ground (arith, c),
        ground (arith, e, c, lookup-insert id j (cancelled_at_counter now o) db.orders),
      ),
      ground (arith, e, c),
    )
  ]
]

-- An order that is not pending, or whose payment is paid, is refused and nothing changes.
pub cancel_order_refused :
    (now id : ℕ) (o : Order) (db : Db)
    → lookup id db.orders ≡ some o
    → can_cancel (lookup id db.payments) o ≡ false
    → cancel_order now id db ≡ (err (cancel_order_refusal (some o)), db)
unfolding cancel_order cancel_pending
cancel_order_refused now id o db l c = ground (arith, l, c)

-- A call that is refused leaves everything as it was.
pub cancel_order_rollback :
    (now id : ℕ) (db db' : Db) (e : Error) → cancel_order now id db ≡ (err e, db') → db' ≡ db
unfolding cancel_order cancel_pending
cancel_order_rollback now id db db' e r = elim (Option-cases (lookup id db.orders)) [
  | inl n ↦ ground (arith, n)
  | inr (o, n) ↦ elim (Bool-cases (can_cancel (lookup id db.payments) o)) [
    | inl c ↦ ground (arith, n, c)
    | inr c ↦ ground (arith, n, c)
  ]
]
