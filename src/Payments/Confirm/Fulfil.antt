-- ===== src/Payments/Confirm/Fulfil.antt =====
-- What sending a paid order to the kitchen does.
use zak_s_sizzling.Prelude.{
  ℕ, ◌≡◌, true, some, arith, ◌==◌, if◌then◌else◌, Option-cases, Bool-cases, inl, inr,
}
use zak_s_sizzling.Prelude.Dict.{lookup, insert, lookup-insert}
use zak_s_sizzling.Store.{Db, Order, Result-cases, ok}
use zak_s_sizzling.Stock.Deduct.{TouchedStock, deduct_stock_for_order, items_of}
use zak_s_sizzling.Stock.Deduct.Order.{deduct_stock_for_order_frame}
use zak_s_sizzling.Orders.PrepTime.{set_estimate}
use zak_s_sizzling.Orders.PrepTime.Queue.{order_minutes}
use zak_s_sizzling.Kitchen.Tasks.{create_kitchen_tasks_for_order-Created}
use zak_s_sizzling.Kitchen.{create_tasks, create_kitchen_tasks_for_order}
use zak_s_sizzling.Payments.Confirm.{is_pending, confirm, confirm_pending_order, fulfil}

-- The state after the order is confirmed.
abbrev confirmed : ℕ → Order → Db → Db
confirmed order_id o db = record db { orders = insert order_id (confirm o) db.orders }

confirm_pending_order-Confirmed :
    (order_id : ℕ) (db db' : Db)
    → confirm_pending_order order_id db ≡ (ok tt, db')
    → (o : Order) × (lookup order_id db.orders ≡ some o)
      × (is_pending o.status ≡ true)
      × (db' ≡ confirmed order_id o db)
unfolding confirm_pending_order
confirm_pending_order-Confirmed order_id db db' r =
    elim (Option-cases (lookup order_id db.orders)) [
      | inl e ↦ ground (arith, e)
      | inr (o, e) ↦ elim (Bool-cases (is_pending o.status)) [
        | inl k ↦ (o, e, k, ground (arith, e, k))
        | inr k ↦ ground (arith, e, k)
      ]
    ]

-- What a successful call has done.
pub record Fulfilled (now order_id : ℕ) (db db' : Db) (t : TouchedStock) : Type 0 where
  pub order : Order
  pub minutes : ℕ
  pub has_order : lookup order_id db.orders ≡ some order
  pub was_pending : is_pending order.status ≡ true
  pub stock : Db
  pub deducted : deduct_stock_for_order order_id db ≡ (ok t, stock)
  pub created :
      create_tasks (items_of order_id db.order_items) db.kitchen_tasks ≡ ok db'.kitchen_tasks
  pub row :
      (id : ℕ)
      → lookup id db'.orders ≡ (
          if order_id == id
          then some (set_estimate now minutes (confirm order))
          else lookup id db.orders)
  pub frame : db' ≡ record db {
    inventory = stock.inventory;
    raw_materials = stock.raw_materials;
    movements = stock.movements;
    orders = db'.orders;
    kitchen_tasks = db'.kitchen_tasks;
  }

-- The three calls one after the other.
record Steps (now order_id : ℕ) (db db' : Db) (t : TouchedStock) : Type 0 where
  stock : Db
  placed : Db
  first : deduct_stock_for_order order_id db ≡ (ok t, stock)
  second : confirm_pending_order order_id stock ≡ (ok tt, placed)
  third : create_kitchen_tasks_for_order now order_id placed ≡ (ok tt, db')

fulfil-Steps :
    (now order_id : ℕ) (db db' : Db) (t : TouchedStock)
    → fulfil now order_id db ≡ (ok t, db')
    → Steps now order_id db db' t
unfolding fulfil
fulfil-Steps now order_id db db' t r =
    let stock = (deduct_stock_for_order order_id db).1 in
    let placed = (confirm_pending_order order_id stock).1 in
    elim (Result-cases (deduct_stock_for_order order_id db).0) [
      | inr (x, e) ↦ ground (arith, e)
      | inl (u, e) ↦ elim (Result-cases (confirm_pending_order order_id stock).0) [
        | inr (x, f) ↦ ground (arith, e, f)
        | inl (v, f) ↦ elim (Result-cases (create_kitchen_tasks_for_order now order_id placed).0) [
          | inr (x, g) ↦ ground (arith, e, f, g)
          | inl (w, g) ↦ record {
            stock = stock;
            placed = placed;
            first = ground (arith, e, f, g);
            second = ground (arith, f);
            third = ground (arith, e, f, g);
          }
        ]
      ]
    ]

pub fulfil-Fulfilled :
    (now order_id : ℕ) (db db' : Db) (t : TouchedStock)
    → fulfil now order_id db ≡ (ok t, db')
    → Fulfilled now order_id db db' t
fulfil-Fulfilled now order_id db db' t r =
    let s = fulfil-Steps now order_id db db' t r in
    let frame = deduct_stock_for_order_frame order_id db s.stock t s.first in
    let (o, e, k, c) = confirm_pending_order-Confirmed order_id s.stock s.placed s.second in
    let (tasks, f) = create_kitchen_tasks_for_order-Created now order_id s.placed db' s.third in
    record {
      order = o;
      minutes = order_minutes order_id s.placed;
      has_order = ground (arith, frame, e);
      was_pending = k;
      stock = s.stock;
      deducted = s.first;
      created = ground (arith, tasks, c, frame);
      row = λ id. grind (arith, f, c, frame, e, lookup-insert);
      frame = ground (arith, f, c, frame);
    }
