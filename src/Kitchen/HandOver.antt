-- ===== src/Kitchen/HandOver.antt =====
-- Handing an order over: `handOverOrder` of apps/api/src/modules/kitchen/service.ts.
use zak_s_sizzling.Prelude.{
  ℕ, ◌≡◌, refl, Bool, true, false, Option, none, some, [], ◌∷◌, ◌++◌, arith, ◌==◌, if◌then◌else◌,
  inl, inr, Option-cases, Bool-cases, ==_iff,
}
use zak_s_sizzling.Prelude.Text.{text}
use zak_s_sizzling.Prelude.Dict.{lookup, lookup-insert, lookup-insert_self}
use zak_s_sizzling.Store.{
  Db, Order, OrderStatus, orders_changed, Error, http_error, ok, err, Proc, update_where,
}
use zak_s_sizzling.Kitchen.Status.{sold_row}
use zak_s_sizzling.Kitchen.{order_not_found, handed_over_error}

pub not_ready_error : Order → Error
not_ready_error o =
    http_error 409 (o.order_number ++ text " isn't ready yet; finish every dish first")

abbrev pub is_ready : OrderStatus → Bool
is_ready OrderStatus.ready = true
is_ready _ = false

abbrev pub handed_over : ℕ → Order → Order
handed_over now o = record o { status = OrderStatus.completed; handed_over_at = some now }

-- Why no row was changed.
pub hand_over_refusal : Option Order → Error
hand_over_refusal none = order_not_found
hand_over_refusal (some o) = elim o.status [
  | OrderStatus.completed ↦ handed_over_error o
  | _ ↦ not_ready_error o
]

unfoldable pub hand_over_order : ℕ → ℕ → Proc (Unit {0})
unfolding hand_over_refusal
hand_over_order now order_id db =
    let (orders, moved) =
      update_where order_id (λ o. is_ready o.status) (handed_over now) db.orders in
    if moved
    then (ok tt, record db { orders = orders; events = db.events ++ orders_changed ∷ [] })
    else (err (hand_over_refusal (lookup order_id db.orders)), db)

-- A ready order is handed over: it is completed, it has its time, and no other order changes.
pub hand_over_order_ready :
    (now order_id j : ℕ) (o : Order) (db : Db)
    → lookup order_id db.orders ≡ some o
    → o.status ≡ OrderStatus.ready
    → ((hand_over_order now order_id db).0 ≡ ok tt)
      × (lookup j (hand_over_order now order_id db).1.orders
          ≡ (if order_id == j then some (handed_over now o) else lookup j db.orders))
unfolding hand_over_order
hand_over_order_ready now order_id j o db l s =
    ground (arith, lookup-insert order_id j (handed_over now o) db.orders)

-- An order that is not ready, or that does not exist, is refused and nothing is written.
pub hand_over_order_refused :
    (now order_id : ℕ) (db : Db)
    → ((o : Order) → lookup order_id db.orders ≡ some o → is_ready o.status ≡ false)
    → hand_over_order now order_id db ≡ (err (hand_over_refusal (lookup order_id db.orders)), db)
unfolding hand_over_order
hand_over_order_refused now order_id db r = elim (Option-cases (lookup order_id db.orders)) [
  | inl e ↦ rw (e, update_where) refl
  | inr (o, e) ↦ rw (e, update_where, r o e) refl
]

-- Pressing it twice: the second call answers that the order was handed over, and keeps what the
-- first call left.
pub hand_over_order_twice :
    (now later order_id : ℕ) (o : Order) (db db' : Db)
    → lookup order_id db.orders ≡ some o
    → hand_over_order now order_id db ≡ (ok tt, db')
    → hand_over_order later order_id db' ≡ (err (handed_over_error o), db')
unfolding hand_over_order handed_over_error
hand_over_order_twice now later order_id o db db' l e =
    ground (arith, lookup-insert_self order_id (handed_over now o) db.orders)

-- Whatever it answers, it touches no payment, and moves no order out of the sold ones or into them.
pub hand_over_order_sold :
    (now order_id id : ℕ) (db : Db)
    → ((hand_over_order now order_id db).1.payments ≡ db.payments)
      × (sold_row (lookup id (hand_over_order now order_id db).1.orders)
          ≡ sold_row (lookup id db.orders))
unfolding hand_over_order
hand_over_order_sold now order_id id db = elim (Option-cases (lookup order_id db.orders)) [
  | inl e ↦ ground (arith, e)
  | inr (o, e) ↦ elim (Bool-cases (is_ready o.status)) [
    | inr r ↦ ground (arith, e, r)
    | inl r ↦
        ground
          (arith, e, r, lookup-insert order_id id (handed_over now o) db.orders, ==_iff order_id id)
  ]
]
