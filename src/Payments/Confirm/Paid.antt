-- ===== src/Payments/Confirm/Paid.antt =====
-- A successful confirmation at the counter, and a failed one.
use zak_s_sizzling.Prelude.{
  ℕ, ◌+◌, ◌≡◌, refl, true, false, Option, none, some, arith, ◌==◌, if◌then◌else◌, inl, inr,
}
use zak_s_sizzling.Prelude.Dict.{lookup, lookup-insert, NodupKeys}
use zak_s_sizzling.Store.{
  Db, Order, OrderItem, OrderStatus, Payment, PaymentMethod, PaymentStatus, Error, Result-cases, ok,
  err,
}
use zak_s_sizzling.Stock.Needs.Demand.{unit_demand, material_demand}
use zak_s_sizzling.Stock.Deduct.{TouchedStock, order_lines, unit_stock}
use zak_s_sizzling.Stock.Deduct.Covered.{material_stock}
use zak_s_sizzling.Stock.Deduct.Order.{deduct_stock_for_order-demand}
use zak_s_sizzling.Stock.Refresh.Frame.{refresh_availability_frame, with_products}
use zak_s_sizzling.Stock.Deduct.Items.{order_lines_frame}
use zak_s_sizzling.Orders.Dto.{OrderDto}
use zak_s_sizzling.Orders.PrepTime.{set_estimate}
use zak_s_sizzling.Kitchen.{new_task}
use zak_s_sizzling.Kitchen.Tasks.{lookup-create_kitchen_tasks}
use zak_s_sizzling.Payments.Confirm.{
  Snapshot, confirm, paid_update, paid_create, mark_payment_paid_if_not_already, pay_and_fulfil,
  announce_paid_order, counter_update, counter_create, confirm_counter_snapshot,
}
use zak_s_sizzling.Payments.Confirm.Mark.{IsMarked, with_payment, mark_payment_paid-IsMarked}
use zak_s_sizzling.Payments.Confirm.Once.{settled_row, is_settled}
use zak_s_sizzling.Payments.Confirm.Fulfil.{Fulfilled, fulfil-Fulfilled}

-- What a successful transaction of the counter has done.
pub record CounterPaid (now : ℕ) (s : Snapshot) (db db' : Db) (t : TouchedStock) : Type 0 where
  pub payment : Payment
  pub marked :
      IsMarked s (counter_update now) (counter_create now) (lookup s.id db.payments) payment
  pub fulfilled : Fulfilled now s.id (with_payment s.id payment db) db' t

pay_and_fulfil-CounterPaid :
    (now : ℕ) (s : Snapshot) (db db' : Db) (t : TouchedStock)
    → pay_and_fulfil now s db ≡ (ok t, db')
    → CounterPaid now s db db' t
unfolding pay_and_fulfil
pay_and_fulfil-CounterPaid now s db db' t r =
    let mark = mark_payment_paid_if_not_already s (counter_update now) (counter_create now) db in
    elim (Result-cases mark.0) [
      | inr (x, e) ↦ ground (arith, e)
      | inl (false, e) ↦ ground (arith, e)
      | inl (true, e) ↦
          let (p, m, d) =
            mark_payment_paid-IsMarked s (counter_update now) (counter_create now) db mark.1
              (ground (arith, e)) in
          record {
            payment = p;
            marked = m;
            fulfilled =
                fulfil-Fulfilled now s.id (with_payment s.id p db) db' t (ground (arith, e, d));
          }
    ]

pub announce_paid_order_frame :
    (s : Snapshot) (t : TouchedStock) (db : Db)
    → announce_paid_order s t db ≡ (ok tt, with_products db (announce_paid_order s t db).1)
unfolding announce_paid_order
announce_paid_order_frame s t db = ground (arith, refresh_availability_frame t db)

-- The whole handler, from what its transaction does.
confirm_counter_snapshot-CounterPaid :
    (now : ℕ) (s : Snapshot) (db db' : Db) (dto : Option OrderDto)
    → confirm_counter_snapshot now s db ≡ (ok dto, db')
    → (t : TouchedStock) × (mid : Db) × CounterPaid now s db mid t × (db' ≡ with_products mid db')
unfolding confirm_counter_snapshot
confirm_counter_snapshot-CounterPaid now s db db' dto r =
    elim (Result-cases (pay_and_fulfil now s db).0) [
      | inr (x, e) ↦ ground (arith, e)
      | inl (t, e) ↦
          let mid = (pay_and_fulfil now s db).1 in
          (
            t,
            mid,
            pay_and_fulfil-CounterPaid now s db mid t (ground (arith, e)),
            ground (arith, e, announce_paid_order_frame s t mid),
          )
    ]

marked_row :
    (now : ℕ) (s : Snapshot) (q : Option Payment) (p : Payment)
    → IsMarked s (counter_update now) (counter_create now) q p
    → (settled_row q ≡ false)
      × (p.status ≡ PaymentStatus.paid)
      × (p.method ≡ PaymentMethod.counter)
      × (p.paid_at ≡ some now)
unfolding paid_update paid_create
marked_row now s none p m = ground (arith, m)
marked_row now s (some q) p m = ground (arith, m)

-- A confirmation that succeeds, whatever the earlier read had shown: the payment was neither paid
-- nor refunded and is now paid at the counter; the order was pending, is confirmed and has its
-- estimate; and every other order and payment is as it was.
pub confirm_counter_snapshot-paid :
    (now : ℕ) (s : Snapshot) (db db' : Db) (dto : Option OrderDto) (id : ℕ)
    → confirm_counter_snapshot now s db ≡ (ok dto, db')
    → (is_settled s.id db ≡ false)
      × ((p : Payment) × (lookup id db'.payments
            ≡ (if s.id == id then some p else lookup id db.payments))
          × (p.status ≡ PaymentStatus.paid)
          × (p.method ≡ PaymentMethod.counter)
          × (p.paid_at ≡ some now))
      × ((o : Order) × (minutes : ℕ) × (lookup s.id db.orders ≡ some o)
          × (o.status ≡ OrderStatus.pending)
          × (lookup id db'.orders ≡ (
              if s.id == id
              then some (set_estimate now minutes (confirm o))
              else lookup id db.orders)))
confirm_counter_snapshot-paid now s db db' dto id r =
    let (t, mid, c, frame) = confirm_counter_snapshot-CounterPaid now s db db' dto r in
    let f = c.fulfilled in
    let m = marked_row now s (lookup s.id db.payments) c.payment c.marked in
    (
      m.0,
      (c.payment, grind (arith, frame, f.frame, lookup-insert), m.1, m.2, m.3),
      (
        f.order,
        f.minutes,
        f.has_order,
        ground (arith, f.was_pending),
        ground (arith, frame, f.row id),
      ),
    )

-- After a confirmation at the counter that succeeds, every dish of the order has a task in the
-- kitchen that nobody has started, and the tasks of other orders are as they were.
pub confirm_counter_snapshot-tasks :
    (now : ℕ) (s : Snapshot) (db db' : Db) (dto : Option OrderDto) (id : ℕ) (i : OrderItem)
    → NodupKeys db.order_items
    → confirm_counter_snapshot now s db ≡ (ok dto, db')
    → lookup id db.order_items ≡ some i
    → lookup id db'.kitchen_tasks
      ≡ (if i.order_id == s.id then some new_task else lookup id db.kitchen_tasks)
confirm_counter_snapshot-tasks now s db db' dto id i n r l =
    let (t, mid, c, frame) = confirm_counter_snapshot-CounterPaid now s db db' dto r in
    let tasks =
      lookup-create_kitchen_tasks s.id id db.order_items db.kitchen_tasks mid.kitchen_tasks i n
        c.fulfilled.created l in
    ground (arith, frame, tasks)

-- After a confirmation at the counter that succeeds, exactly what the order's lines need is gone
-- from the stock.
pub confirm_counter_snapshot-demand :
    (now : ℕ) (s : Snapshot) (db db' : Db) (dto : Option OrderDto) (id : ℕ)
    → confirm_counter_snapshot now s db ≡ (ok dto, db')
    → (unit_stock (lookup id db'.inventory) + unit_demand id (order_lines s.id db)
        ≡ unit_stock (lookup id db.inventory))
      × (material_stock (lookup id db'.raw_materials) + material_demand id (order_lines s.id db)
          ≡ material_stock (lookup id db.raw_materials))
confirm_counter_snapshot-demand now s db db' dto id r =
    let (t, mid, c, frame) = confirm_counter_snapshot-CounterPaid now s db db' dto r in
    let paid = with_payment s.id c.payment db in
    let taken =
      deduct_stock_for_order-demand s.id paid c.fulfilled.stock t id c.fulfilled.deducted in
    ground (arith, frame, c.fulfilled.frame, taken, order_lines_frame s.id db paid refl refl refl)

-- A confirmation that fails, for whatever reason, leaves everything as it was: the payment is not
-- marked and no stock is gone.
pub confirm_counter_snapshot_rollback :
    (now : ℕ) (s : Snapshot) (db db' : Db) (e : Error)
    → confirm_counter_snapshot now s db ≡ (err e, db')
    → db' ≡ db
unfolding confirm_counter_snapshot
confirm_counter_snapshot_rollback now s db db' e r =
    elim (Result-cases (pay_and_fulfil now s db).0) [
      | inr (x, h) ↦ ground (arith, h)
      | inl (t, h) ↦ ground (arith, h, announce_paid_order_frame s t (pay_and_fulfil now s db).1)
    ]
