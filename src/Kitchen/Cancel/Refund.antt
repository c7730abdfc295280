-- ===== src/Kitchen/Cancel/Refund.antt =====
-- Cancelling in the kitchen: what a successful call does, and that a refused one does nothing.
use zak_s_sizzling.Kitchen.Cancel.{
  is_unstarted, refund_note, unstarted_items, cancelled_row, cancelled_note, cancel_refusal,
  mark_cancelled, unstarted_lines, return_log, cancel_and_return, cancel_kitchen_order,
}
use zak_s_sizzling.Payments.AttentionNote.{add_attention_note}
use zak_s_sizzling.Prelude.{
  ==_iff, ◌≢◌, refl, List, none, [], ◌∷◌, ℕ, ◌+◌, ◌≡◌, ◌∙◌, ap, true, false, some, arith, ◌==◌,
  if◌then◌else◌, inl, inr, Option-cases, Bool-cases,
}
use zak_s_sizzling.Prelude.Dict.{Dict, lookup, insert, lookup-insert}
use zak_s_sizzling.Stock.Deduct.{stock_lines, TouchedStock, unit_stock}
use zak_s_sizzling.Store.{
  KitchenStatus, KitchenTask, OrderItem, OrderStatus, Db, Order, Error, Result-cases, ok, err,
  continue, or_throw, update_where,
}
use zak_s_sizzling.Prelude.Text.{Text}
use zak_s_sizzling.Stock.Needs.Demand.{unit_demand, material_demand}
use zak_s_sizzling.Stock.Deduct.Covered.{material_stock}
use zak_s_sizzling.Stock.Return.{return_stock_for_lines}
use zak_s_sizzling.Stock.Return.Lines.{
  return_stock_for_lines-demand, return_stock_for_lines-Returned,
}
use zak_s_sizzling.Stock.Refresh.Frame.{refresh_availability_frame}
use zak_s_sizzling.Kitchen.{is_in_kitchen, read, ◌>>=◌, ◌>>◌}

-- The order's row after the call.
abbrev pub row_after : ℕ → ℕ → Text → Order → Db → Order
row_after now order_id reason o db =
    cancelled_row now reason (cancelled_note reason o (lookup order_id db.payments)) o

abbrev pub marked : ℕ → ℕ → Text → Order → Db → Db
marked now order_id reason o db = record db {
  orders = insert order_id (row_after now order_id reason o db) db.orders;
}

cancel_and_return_lem :
    (now order_id : ℕ) (reason : Text) (user_id : ℕ) (o : Order) (db : Db)
    → lookup order_id db.orders ≡ some o
    → cancel_and_return now order_id reason user_id db ≡ (
        if is_in_kitchen o.status
        then return_stock_for_lines
            (unstarted_lines order_id db)
            (return_log order_id user_id o)
            (marked now order_id reason o db)
        else (err (cancel_refusal o), db))
unfolding cancel_and_return mark_cancelled unstarted_lines
cancel_and_return_lem now order_id reason user_id o db l =
    elim (Bool-cases (is_in_kitchen o.status)) [
      | inl e ↦
          rw (l, or_throw, continue, read, ◌>>=◌, ◌>>◌, mark_cancelled, update_where, e)
            (rw (l, or_throw, continue, update_where, e))
      | inr e ↦
          rw (l, or_throw, continue, read, ◌>>=◌, ◌>>◌, mark_cancelled, update_where, e)
            (rw (l, or_throw, continue, update_where, e))
    ]

-- What a successful call has done before availability is refreshed.
pub record Cancelled (now order_id : ℕ) (reason : Text) (user_id : ℕ) (db db' : Db)
    (t : TouchedStock) : Type 0 where
  pub order : Order
  pub has_order : lookup order_id db.orders ≡ some order
  pub was_in_kitchen : is_in_kitchen order.status ≡ true
  pub returned :
      return_stock_for_lines
        (unstarted_lines order_id db)
        (return_log order_id user_id order)
        (marked now order_id reason order db)
      ≡ (ok t, db')

cancel_and_return-Cancelled :
    (now order_id : ℕ) (reason : Text) (user_id : ℕ) (db db' : Db) (t : TouchedStock)
    → cancel_and_return now order_id reason user_id db ≡ (ok t, db')
    → Cancelled now order_id reason user_id db db' t
unfolding cancel_and_return
cancel_and_return-Cancelled now order_id reason user_id db db' t r =
    elim (Option-cases (lookup order_id db.orders)) [
      | inl e ↦ ground (arith, e)
      | inr (o, e) ↦ elim (Bool-cases (is_in_kitchen o.status)) [
        | inr k ↦ ground (arith, e, k, cancel_and_return_lem now order_id reason user_id o db e)
        | inl k ↦ record {
          order = o;
          has_order = e;
          was_in_kitchen = k;
          returned = ground (arith, k, cancel_and_return_lem now order_id reason user_id o db e);
        }
      ]
    ]

return_stock_for_lines-orders :
    (now order_id : ℕ) (reason : Text) (user_id : ℕ) (db db' : Db) (t : TouchedStock)
    (c : Cancelled now order_id reason user_id db db' t)
    → db'.orders ≡ (marked now order_id reason c.order db).orders
return_stock_for_lines-orders now order_id reason user_id db db' t c =
    ap (λ d. d.orders)
      (return_stock_for_lines-Returned (unstarted_lines order_id db)
        (return_log order_id user_id c.order) (marked now order_id reason c.order db) db' t
        c.returned).tables

return_stock_for_lines-payments :
    (now order_id : ℕ) (reason : Text) (user_id : ℕ) (db db' : Db) (t : TouchedStock)
    → Cancelled now order_id reason user_id db db' t
    → db'.payments ≡ db.payments
return_stock_for_lines-payments now order_id reason user_id db db' t c =
    ap (λ d. d.payments)
      (return_stock_for_lines-Returned (unstarted_lines order_id db)
        (return_log order_id user_id c.order) (marked now order_id reason c.order db) db' t
        c.returned).tables

-- What the whole call answers and leaves, from what its transaction does.
cancel_kitchen_order_lem :
    (now order_id : ℕ) (reason : Text) (user_id : ℕ) (db db' : Db)
    → cancel_kitchen_order now order_id reason user_id db ≡ (ok tt, db')
    → (t : TouchedStock) × (mid : Db) × Cancelled now order_id reason user_id db mid t
      × (db'.orders ≡ mid.orders)
      × (db'.inventory ≡ mid.inventory)
      × (db'.raw_materials ≡ mid.raw_materials)
      × (db'.payments ≡ mid.payments)
unfolding cancel_kitchen_order
cancel_kitchen_order_lem now order_id reason user_id db db' r =
    elim (Result-cases (cancel_and_return now order_id reason user_id db).0) [
      | inr (x, e) ↦ ground (arith, e)
      | inl (t, e) ↦
          let mid = (cancel_and_return now order_id reason user_id db).1 in
          (
            t,
            mid,
            cancel_and_return-Cancelled now order_id reason user_id db mid t (ground (arith, e)),
            ground (arith, e, refresh_availability_frame t mid),
            ground (arith, e, refresh_availability_frame t mid),
            ground (arith, e, refresh_availability_frame t mid),
            ground (arith, e, refresh_availability_frame t mid),
          )
    ]

pub cancel_kitchen_order_rows :
    (now order_id : ℕ) (reason : Text) (user_id : ℕ) (db db' : Db) (id : ℕ)
    → cancel_kitchen_order now order_id reason user_id db ≡ (ok tt, db')
    → ((o : Order) × (lookup order_id db.orders ≡ some o)
        × (is_in_kitchen o.status ≡ true)
        × (lookup id db'.orders ≡ (
            if order_id == id
            then some (row_after now order_id reason o db)
            else lookup id db.orders)))
      × (unit_stock (lookup id db'.inventory)
          ≡ unit_stock (lookup id db.inventory) + unit_demand id (unstarted_lines order_id db))
      × (material_stock (lookup id db'.raw_materials)
          ≡ material_stock (lookup id db.raw_materials)
            + material_demand id (unstarted_lines order_id db))
      × (db'.payments ≡ db.payments)
cancel_kitchen_order_rows now order_id reason user_id db db' id r =
    let (t, mid, c, orders, inv, ms, ps) =
      cancel_kitchen_order_lem now order_id reason user_id db db' r in
    let back =
      return_stock_for_lines-demand (unstarted_lines order_id db)
        (return_log order_id user_id c.order) (marked now order_id reason c.order db) mid t id
        c.returned in
    (
      (
        c.order,
        c.has_order,
        c.was_in_kitchen,
        rw (orders, return_stock_for_lines-orders now order_id reason user_id db mid t c)
            (lookup-insert order_id id (row_after now order_id reason c.order db) db.orders),
      ),
      rw inv back.0,
      rw ms back.1,
      ps ∙ return_stock_for_lines-payments now order_id reason user_id db mid t c,
    )

-- The items of an order whose task is pending, in their order.
pub data Unstarted (order_id : ℕ) (tasks : Dict KitchenTask)
    : Dict OrderItem → List OrderItem → Type 0 where
  no_items : Unstarted order_id tasks [] []
  waits :
      (id : ℕ)
      → (i : OrderItem) → (t : KitchenTask) → (items : Dict OrderItem) → (is : List OrderItem)
      → i.order_id ≡ order_id
      → lookup id tasks ≡ some t
      → t.status ≡ KitchenStatus.pending
      → Unstarted order_id tasks items is
      → Unstarted order_id tasks ((id, i) ∷ items) (i ∷ is)
  started :
      (id : ℕ)
      → (i : OrderItem) → (t : KitchenTask) → (items : Dict OrderItem) → (is : List OrderItem)
      → lookup id tasks ≡ some t
      → t.status ≢ KitchenStatus.pending
      → Unstarted order_id tasks items is
      → Unstarted order_id tasks ((id, i) ∷ items) is
  no_task :
      (id : ℕ)
      → (i : OrderItem) → (items : Dict OrderItem) → (is : List OrderItem) → lookup id tasks ≡ none
      → Unstarted order_id tasks items is
      → Unstarted order_id tasks ((id, i) ∷ items) is
  of_another :
      (id : ℕ)
      → (i : OrderItem) → (items : Dict OrderItem) → (is : List OrderItem) → i.order_id ≢ order_id
      → Unstarted order_id tasks items is
      → Unstarted order_id tasks ((id, i) ∷ items) is

is_unstarted-pending :
    (t : KitchenTask) → is_unstarted (some t) ≡ true → t.status ≡ KitchenStatus.pending
is_unstarted-pending t h = ground arith

is_unstarted-started :
    (t : KitchenTask) → is_unstarted (some t) ≡ false → t.status ≢ KitchenStatus.pending
is_unstarted-started t h = λ e. ground (arith, e, h)

unstarted_items-Unstarted :
    (order_id : ℕ) (tasks : Dict KitchenTask) (items : Dict OrderItem)
    → Unstarted order_id tasks items (unstarted_items order_id tasks items)
unfolding unstarted_items
unstarted_items-Unstarted order_id tasks [] = no_items
unstarted_items-Unstarted order_id tasks ((id, i) ∷ items) =
    let is = unstarted_items order_id tasks items in
    let rest = unstarted_items-Unstarted order_id tasks items in
    elim (Bool-cases (i.order_id == order_id)) [
      | inr h ↦
          rw h (of_another id i items is (λ e. ground (arith, h, ==_iff i.order_id order_id)) rest)
      | inl h ↦ elim (Option-cases (lookup id tasks)) [
        | inl n ↦ rw (h, n) (no_task id i items is n rest)
        | inr (t, l) ↦ elim (Bool-cases (is_unstarted (some t))) [
          | inl k ↦
              rw (h, l, k)
                (waits id i t items is (ground (arith, h, ==_iff i.order_id order_id)) l
                  (is_unstarted-pending t k) rest)
          | inr k ↦ rw (h, l, k) (started id i t items is l (is_unstarted-started t k) rest)
        ]
      ]
    ]

-- A successful call: the order was in the kitchen, and its row is cancelled with the time and the
-- reason, flagged with the note to refund it; every other order is as it was and no payment
-- changes; and what the dishes whose task is pending need, and nothing else, is back in the stock.
pub cancel_kitchen_order_returns :
    (now order_id : ℕ) (reason : Text) (user_id : ℕ) (db db' : Db) (id : ℕ)
    → cancel_kitchen_order now order_id reason user_id db ≡ (ok tt, db')
    → (o : Order) × (o' : Order) × (is : List OrderItem) × (lookup order_id db.orders ≡ some o)
      × (is_in_kitchen o.status ≡ true)
      × (lookup id db'.orders ≡ (if order_id == id then some o' else lookup id db.orders))
      × (o'.status ≡ OrderStatus.cancelled)
      × (o'.cancelled_at ≡ some now)
      × (o'.cancel_reason ≡ some reason)
      × (o'.stock_issue ≡ true)
      × (o'.stock_issue_note
          ≡ some (
              add_attention_note o.stock_issue_note o.stock_issue
                (refund_note reason o (lookup order_id db.payments))))
      × Unstarted order_id db.kitchen_tasks db.order_items is
      × (unit_stock (lookup id db'.inventory)
          ≡ unit_stock (lookup id db.inventory)
            + unit_demand id (stock_lines db.products db.raw_materials is))
      × (material_stock (lookup id db'.raw_materials)
          ≡ material_stock (lookup id db.raw_materials)
            + material_demand id (stock_lines db.products db.raw_materials is))
      × (db'.payments ≡ db.payments)
unfolding unstarted_lines cancelled_note
cancel_kitchen_order_returns now order_id reason user_id db db' id r =
    let ((o, l, k, row), units, materials, ps) =
      cancel_kitchen_order_rows now order_id reason user_id db db' id r in
    (
      o,
      row_after now order_id reason o db,
      unstarted_items order_id db.kitchen_tasks db.order_items,
      l,
      k,
      row,
      refl,
      refl,
      refl,
      refl,
      refl,
      unstarted_items-Unstarted order_id db.kitchen_tasks db.order_items,
      units,
      materials,
      ps,
    )

-- A call that fails, for whatever reason, leaves everything as it was.
pub cancel_kitchen_order_rollback :
    (now order_id : ℕ) (reason : Text) (user_id : ℕ) (db db' : Db) (e : Error)
    → cancel_kitchen_order now order_id reason user_id db ≡ (err e, db')
    → db' ≡ db
unfolding cancel_kitchen_order
cancel_kitchen_order_rollback now order_id reason user_id db db' e r =
    elim (Result-cases (cancel_and_return now order_id reason user_id db).0) [
      | inr (x, h) ↦ ground (arith, h)
      | inl (t, h) ↦ ground (
        arith,
        h,
        refresh_availability_frame t (cancel_and_return now order_id reason user_id db).1,
      )
    ]

-- An order that is not in the kitchen is refused, with the reason, and nothing changes.
pub cancel_kitchen_order_refused :
    (now order_id : ℕ) (reason : Text) (user_id : ℕ) (db : Db) (o : Order)
    → lookup order_id db.orders ≡ some o
    → is_in_kitchen o.status ≡ false
    → cancel_kitchen_order now order_id reason user_id db ≡ (err (cancel_refusal o), db)
unfolding cancel_kitchen_order
cancel_kitchen_order_refused now order_id reason user_id db o l k =
    ground (arith, k, cancel_and_return_lem now order_id reason user_id o db l)
