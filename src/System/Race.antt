-- ===== src/System/Race.antt =====
-- Cancelling against paying: whichever commits first wins, and the other is refused.
use zak_s_sizzling.Payments.Confirm.{
  load_payable_order, Snapshot, confirm_counter_snapshot, confirm,
}
use zak_s_sizzling.Payments.Confirm.Once.{load_payable_order-ok}
use zak_s_sizzling.Payments.QrPh.{QrPhCode, create_qrph_payment}
use zak_s_sizzling.Payments.QrPh.Pending.{record_qrph-pending, record_qrph_orders}
use zak_s_sizzling.Store.{
  Order, OrderStatus, Payment, PaymentStatus, PaymentMethod, Db, Error, Result-cases, ok, err,
}
use zak_s_sizzling.Prelude.{true, ℕ, ◌≡◌, refl, Option, some, arith, inl, inr, ==_refl}
use zak_s_sizzling.Prelude.Dict.{lookup}
use zak_s_sizzling.Orders.Dto.{OrderDto}
use zak_s_sizzling.Orders.Cancel.{
  cancel_order, cancel_order_refusal, cancel_order-cancelled, cancel_order_refused,
}
use zak_s_sizzling.Payments.Confirm.Paid.{
  confirm_counter_snapshot-paid, confirm_counter_snapshot_rollback,
}
use zak_s_sizzling.Orders.PrepTime.{set_estimate}

-- Once an order is cancelled in the queue, confirming its payment at the counter is refused and
-- leaves everything as it was, also for a click on a screen that still showed it as unpaid.
pub cancel_order-confirm_counter_snapshot :
    (now later : ℕ) (s : Snapshot) (db db' : Db) (dto : Option OrderDto)
    → cancel_order now s.id db ≡ (ok dto, db')
    → (e : Error) × (confirm_counter_snapshot later s db' ≡ (err e, db'))
cancel_order-confirm_counter_snapshot now later s db db' dto r =
    let ((o, l, p, q, row), f) = cancel_order-cancelled now s.id s.id db db' dto r in
    elim (Result-cases (confirm_counter_snapshot later s db').0) [
      | inr (e, h) ↦ (
        e,
        ground (
          arith,
          h,
          confirm_counter_snapshot_rollback later s db' (confirm_counter_snapshot later s db').1 e,
        ),
      )
      | inl (d, h) ↦ ground (
        arith,
        h,
        row,
        ==_refl s.id,
        confirm_counter_snapshot-paid later s db' (confirm_counter_snapshot later s db').1 d s.id,
      )
    ]

-- Once a payment is confirmed at the counter, cancelling the order in the queue is refused and
-- leaves everything as it was.
pub confirm_counter_snapshot-cancel_order :
    (now later : ℕ) (s : Snapshot) (db db' : Db) (dto : Option OrderDto)
    → confirm_counter_snapshot now s db ≡ (ok dto, db')
    → (e : Error) × (cancel_order later s.id db' ≡ (err e, db'))
confirm_counter_snapshot-cancel_order now later s db db' dto r =
    let (u, p, (o, minutes, l, w, row)) = confirm_counter_snapshot-paid now s db db' dto s.id r in
    let after = set_estimate now minutes (confirm o) in
    let found : lookup s.id db'.orders ≡ some after = ground (arith, row, ==_refl s.id) in
    (cancel_order_refusal (some after), cancel_order_refused later s.id after db' found refl)

-- A confirmation at the counter that succeeds while PayMongo makes a QR code is overwritten when the
-- code is recorded: the order is confirmed, and its payment says pending, by QR Ph, with the code's
-- reference. The check before the wait does not hold after it.
pub create_qrph_payment-confirm_counter_snapshot :
    (now order_id : ℕ) (code : QrPhCode) (s : Snapshot) (db db' : Db) (dto : Option OrderDto)
    → load_payable_order order_id db ≡ ok s
    → confirm_counter_snapshot now s db ≡ (ok dto, db')
    → let last =
        (create_qrph_payment true
          (ok code)
          (λ d. (confirm_counter_snapshot now s d).1)
          order_id
          db).1 in
      (o : Order) × (p : Payment) × (lookup order_id last.orders ≡ some o)
      × (o.status ≡ OrderStatus.confirmed)
      × (lookup order_id last.payments ≡ some p)
      × (p.status ≡ PaymentStatus.pending)
      × (p.method ≡ PaymentMethod.qrph)
      × (p.reference ≡ some code.payment_intent_id)
unfolding create_qrph_payment
create_qrph_payment-confirm_counter_snapshot now order_id code s db db' dto l r =
    let (same, unpaid) = load_payable_order-ok order_id s db l in
    let (open_row, paid, (o, minutes, m, st, row)) =
      confirm_counter_snapshot-paid now s db db' dto order_id r in
    let (p, found, pending, method, reference) = record_qrph-pending code s db' in
    (
      set_estimate now minutes (confirm o),
      p,
      ground (arith, l, r, row, same, ==_refl order_id, record_qrph_orders (ok code) s db'),
      refl,
      ground (arith, l, r, found, same),
      pending,
      method,
      reference,
    )
