-- ===== src/Payments/Confirm.antt =====
-- Confirming a payment (apps/api/src/modules/payments/service.ts): what the counter and PayMongo
-- share, and the counter's own handler. A handler reads the order before its transaction starts,
-- so the transaction takes that earlier snapshot as an argument, which other calls may have made
-- stale.
pub mod Once
pub mod Mark
pub mod Fulfil
pub mod Paid
use zak_s_sizzling.Prelude.{
  ℕ, Bool, true, false, not, Option, none, some, List, [], ◌∷◌, ◌++◌, if◌then◌else◌, is_some,
}
use zak_s_sizzling.Prelude.Text.{Text, text}
use zak_s_sizzling.Prelude.Dict.{Dict, lookup, insert}
use zak_s_sizzling.Store.{
  Db, Order, OrderStatus, Payment, PaymentMethod, PaymentStatus, orders_changed, order_created,
  payment_confirmed, Error, http_error, order_cancelled, Result, ok, err, Proc, pure, throw, read,
  lift, throw_if, emit, transaction, settle, continue, update_where, ◌>>=◌, ◌>>◌,
}
use zak_s_sizzling.Stock.Deduct.{TouchedStock, deduct_stock_for_order}
use zak_s_sizzling.Stock.Refresh.{refresh_availability}
use zak_s_sizzling.Kitchen.{order_not_found, create_kitchen_tasks_for_order}
use zak_s_sizzling.Orders.Dto.{OrderDto, get_order_by_id}

-- An order with its payment, as a handler read them.
pub record Snapshot : Type 0 where
  pub id : ℕ
  pub order : Order
  pub payment : Option Payment

abbrev pub already_paid_error : Error
already_paid_error = http_error 409 (text "Order is already paid")

pub cancelled_message : Order → Text
cancelled_message o = o.order_number ++ text " was cancelled, so it can't be paid"

abbrev pub is_paid : PaymentStatus → Bool
is_paid PaymentStatus.paid = true
is_paid _ = false

abbrev pub paid_row : Option Payment → Bool
paid_row none = false
paid_row (some p) = is_paid p.status

abbrev pub is_cancelled : OrderStatus → Bool
is_cancelled OrderStatus.cancelled = true
is_cancelled _ = false

unfoldable pub load_payable_order : ℕ → Db → Result Snapshot
unfolding cancelled_message
load_payable_order order_id db = elim (lookup order_id db.orders) [
  | none ↦ err order_not_found
  | some o ↦
      if paid_row (lookup order_id db.payments)
      then err already_paid_error
      else if is_cancelled o.status
      then err (http_error 409 (cancelled_message o))
      else ok (record { id = order_id; order = o; payment = lookup order_id db.payments })
]

abbrev pub is_pending : OrderStatus → Bool
is_pending OrderStatus.pending = true
is_pending _ = false

abbrev pub confirm : Order → Order
confirm o = record o { status = OrderStatus.confirmed }

unfoldable pub confirm_pending_order : ℕ → Proc (Unit {0})
confirm_pending_order order_id db =
    let (orders, done) = update_where order_id (λ o. is_pending o.status) confirm db.orders in
    (if done then ok tt else err order_cancelled, record db { orders = orders })

-- The fields that a confirmation writes into an existing row; an absent one stays as it is.
pub record PaidUpdate : Type 0 where
  pub method : Option PaymentMethod
  pub reference : Option Text
  pub paid_at : ℕ

-- The fields of a row that the confirmation has to create.
pub record PaidCreate : Type 0 where
  pub method : PaymentMethod
  pub paid_at : ℕ

abbrev replaced {ℓ} : {A : Type ℓ} → Option A → A → A
replaced none a = a
replaced (some b) a = b

abbrev kept_or {ℓ} : {A : Type ℓ} → Option A → Option A → Option A
kept_or none a = a
kept_or (some b) a = some b

unfoldable pub paid_update : PaidUpdate → Payment → Payment
paid_update u p = record p {
  method = replaced u.method p.method;
  reference = kept_or u.reference p.reference;
  status = PaymentStatus.paid;
  paid_at = some u.paid_at;
}

unfoldable pub paid_create : PaidCreate → Order → Payment
paid_create c o = record {
  method = c.method;
  status = PaymentStatus.paid;
  amount = o.total_amount;
  reference = none;
  paid_at = some c.paid_at;
  refunded_at = none;
}

-- `status: { notIn: ["paid", "refunded"] }`
abbrev pub is_open : PaymentStatus → Bool
is_open PaymentStatus.paid = false
is_open PaymentStatus.refunded = false
is_open _ = true

-- One conditional update if the snapshot has a row; else a create, which the unique column guards.
unfoldable pub mark_payment_paid_if_not_already : Snapshot → PaidUpdate → PaidCreate → Proc Bool
unfolding paid_update paid_create
mark_payment_paid_if_not_already s u c db = elim s.payment [
  | some p ↦
      let (payments, done) =
        update_where s.id (λ (q : Payment). is_open q.status) (paid_update u) db.payments in
      (ok done, record db { payments = payments })
  | none ↦
      if is_some (lookup s.id db.payments)
      then (ok Bool.false, db)
      else (ok Bool.true, record db { payments = insert s.id (paid_create c s.order) db.payments })
]

-- What both kinds of confirmation do once the payment is marked.
unfoldable pub fulfil : ℕ → ℕ → Proc TouchedStock
fulfil now order_id = do
  touched ← deduct_stock_for_order order_id
  confirm_pending_order order_id
  create_kitchen_tasks_for_order now order_id
  pure touched

unfoldable pub announce_paid_order : Snapshot → TouchedStock → Proc (Unit {0})
announce_paid_order s touched = do
  refresh_availability touched
  emit (order_created s.id s.order.order_number)
  emit (payment_confirmed s.id s.order.order_number s.order.kiosk_session_id)
  emit orders_changed

abbrev pub counter_update : ℕ → PaidUpdate
counter_update now = record { method = some PaymentMethod.counter; reference = none; paid_at = now }

abbrev pub counter_create : ℕ → PaidCreate
counter_create now = record { method = PaymentMethod.counter; paid_at = now }

unfoldable pub pay_and_fulfil : ℕ → Snapshot → Proc TouchedStock
unfolding fulfil
pay_and_fulfil now s = do
  applied ← mark_payment_paid_if_not_already s (counter_update now) (counter_create now)
  throw_if (not applied) already_paid_error
  fulfil now s.id

-- `.catch`: the error that rolled the transaction back becomes an answer.
unfoldable pub payment_refusal : Order → Error → Error
unfolding cancelled_message
payment_refusal o order_cancelled = http_error 409 (cancelled_message o)
payment_refusal o e = e

abbrev pub refused_if_cancelled : Order → Result TouchedStock × Db → Result TouchedStock × Db
refused_if_cancelled o (ok t, db) = (ok t, db)
refused_if_cancelled o (err e, db) = (err (payment_refusal o e), db)

-- The handler from its transaction on.
unfoldable pub confirm_counter_snapshot : ℕ → Snapshot → Proc (Option OrderDto)
unfolding pay_and_fulfil announce_paid_order
confirm_counter_snapshot now s = do
  touched ← (λ db. refused_if_cancelled s.order (transaction (pay_and_fulfil now s) db))
  announce_paid_order s touched
  read (get_order_by_id s.id)

pub confirm_counter_payment : ℕ → ℕ → Proc (Option OrderDto)
unfolding load_payable_order confirm_counter_snapshot
confirm_counter_payment now order_id = do
  order ← (λ db. (load_payable_order order_id db, db))
  confirm_counter_snapshot now order
