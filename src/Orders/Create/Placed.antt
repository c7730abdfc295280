-- ===== src/Orders/Create/Placed.antt =====
-- What placing an order does: it takes nothing from the stock, and only an order whose dishes can
-- all be made is placed.
use zak_s_sizzling.Orders.Create.{
  insert_items, item_row, total, with_pending, Bool, payment_method_of, stock_qty_of, prep_line,
  Draw, OrderInput, NewItem, ItemLine, check_items, new_order_line, new_order, place, number_taken,
  try_numbers, place_lines, create_order,
}
use zak_s_sizzling.Payments.QrPh.{pending_payment}
use zak_s_sizzling.Prelude.{
  is_some, ℕ, zero, suc, ◌+◌, ◌*◌, ◌≡◌, refl, true, false, Option, none, some, List, [], ◌∷◌, ◌++◌,
  arith, ◌==◌, Option-cases, Bool-cases, inl, inr, map, All, or_else,
}
use zak_s_sizzling.Prelude.Dict.{insert, Dict, lookup, lookup-insert}
use zak_s_sizzling.RateLimit.{minutes}
use zak_s_sizzling.Store.{
  OrderItem, Payment, PaymentMethod, PaymentStatus, OrderStatus, Db, Inventory, Order, Product,
  Error, Result-cases, ok, err, orders_changed,
}
use zak_s_sizzling.Prelude.Text.{Text}
use zak_s_sizzling.Stock.Needs.Demand.{IsMakeable}
use zak_s_sizzling.Stock.Deduct.{unit_stock}
use zak_s_sizzling.Stock.Deduct.Order.{Covers}
use zak_s_sizzling.Stock.NewOrder.{assert_stock_for_new_order, stock_line_of}
use zak_s_sizzling.Stock.NewOrder.Precheck.{IsLoaded, assert_stock_for_new_order-Covers}
use zak_s_sizzling.Stock.Deduct.Items.{stock_line-Carries}
use zak_s_sizzling.Orders.PrepTime.{estimate_prep_minutes, count_orders_in_kitchen}
use zak_s_sizzling.Orders.Dto.{OrderDto}

-- The items that pass the first loop are the request's, each with a product that is available.
abbrev pub Available : Dict Product → List NewItem → List ItemLine → Type 0
Available ps [] [] = Unit
Available ps (i ∷ is) (l ∷ ls) =
    (l.item ≡ i)
    × (lookup i.product_id ps ≡ some l.product)
    × (l.product.is_available ≡ true)
    × Available ps is ls
Available ps _ _ = ⊥

check_items-Available :
    (ps : Dict Product) (is : List NewItem) (ls : List ItemLine)
    → check_items ps is ≡ ok ls
    → Available ps is ls
unfolding check_items
check_items-Available ps [] [] e = tt
check_items-Available ps [] (l ∷ ls) e = ground arith
check_items-Available ps (i ∷ is) ls e = elim (Option-cases (lookup i.product_id ps)) [
  | inl n ↦ ground (arith, n)
  | inr (p, n) ↦ elim (Bool-cases p.is_available) [
    | inr a ↦ ground (arith, n, a)
    | inl a ↦ elim (Result-cases (check_items ps is)) [
      | inr (x, c) ↦ ground (arith, n, a, c)
      | inl (ks, c) ↦
          let same : record { item = i; product = p } ∷ ks ≡ ls = ground (arith, n, a, c) in
          rw (← same) (refl, n, a, check_items-Available ps is ks c)
    ]
  ]
]

-- A number among the five that were drawn.
record Attempt (d : Draw) (input : OrderInput) (ls : List ItemLine) (db db' : Db) : Type 0 where
  n : ℕ
  minutes : ℕ
  free : number_taken (d.number n) db.orders ≡ false
  placed : db' ≡ record (place d input ls (new_order d input ls (d.number n) minutes) db) {
    events = db.events ++ orders_changed ∷ [];
  }

try_numbers-Attempt :
    (d : Draw) (input : OrderInput) (ls : List ItemLine) (minutes left n : ℕ) (db db' : Db)
    (dto : Option OrderDto)
    → try_numbers d input ls minutes left n db ≡ (ok dto, db')
    → Attempt d input ls db db'
unfolding try_numbers
try_numbers-Attempt d input ls minutes zero n db db' dto e = ground arith
try_numbers-Attempt d input ls minutes (suc left) n db db' dto e =
    elim (Bool-cases (number_taken (d.number n) db.orders)) [
      | inl t ↦ try_numbers-Attempt d input ls minutes left (suc n) db db' dto (ground (arith, t))
      | inr t ↦ record { n = n; minutes = minutes; free = t; placed = ground (arith, t) }
    ]

try_numbers_err :
    (d : Draw) (input : OrderInput) (ls : List ItemLine) (minutes left n : ℕ) (db db' : Db)
    (x : Error)
    → try_numbers d input ls minutes left n db ≡ (err x, db')
    → db' ≡ db
unfolding try_numbers
try_numbers_err d input ls minutes zero n db db' x e = ground arith
try_numbers_err d input ls minutes (suc left) n db db' x e =
    elim (Bool-cases (number_taken (d.number n) db.orders)) [
      | inl t ↦ try_numbers_err d input ls minutes left (suc n) db db' x (ground (arith, t))
      | inr t ↦ ground (arith, t)
    ]

lines-IsLoaded : (db : Db) (ls : List ItemLine) → All (IsLoaded db) (map (new_order_line db) ls)
unfolding new_order_line
lines-IsLoaded db [] = tt
lines-IsLoaded db (l ∷ ls) =
    let k = stock_line-Carries db.raw_materials l.item.qty l.item.product_id l.product in
    ((rw k.1 (inventory_eq (lookup l.item.product_id db.inventory)), k.0), lines-IsLoaded db ls)
  where
    inventory_eq : (r : Option Inventory) → or_else (stock_qty_of r) 0 ≡ unit_stock r
    inventory_eq none = refl
    inventory_eq (some r) = refl

pub create_order-Attempt :
    (d : Draw) (input : OrderInput) (db db' : Db) (dto : Option OrderDto)
    → create_order d input db ≡ (ok dto, db')
    → (ls : List ItemLine) × (n : ℕ) × (minutes : ℕ) × Available db.products input.items ls
      × All IsMakeable (map stock_line_of (map (new_order_line db) ls))
      × Covers db (map stock_line_of (map (new_order_line db) ls))
      × (number_taken (d.number n) db.orders ≡ false)
      × (db' ≡ record (place d input ls (new_order d input ls (d.number n) minutes) db) {
        events = db.events ++ orders_changed ∷ [];
      })
unfolding create_order place_lines
create_order-Attempt d input db db' dto r =
    elim (Result-cases (check_items db.products input.items)) [
      | inr (x, c) ↦ ground (arith, c)
      | inl (ls, c) ↦
          elim (Result-cases (assert_stock_for_new_order (map (new_order_line db) ls))) [
            | inr (x, k) ↦ ground (arith, c, k)
            | inl (v, k) ↦
                let covers =
                  assert_stock_for_new_order-Covers db (map (new_order_line db) ls)
                    (lines-IsLoaded db ls) (ground (arith, k)) in
                let t =
                  try_numbers-Attempt d input ls
                    (estimate_prep_minutes (map prep_line ls) (count_orders_in_kitchen none db)) 5 0
                    db db' dto (ground (arith, c, k)) in
                (
                  ls,
                  t.n,
                  t.minutes,
                  check_items-Available db.products input.items ls c,
                  covers.0,
                  covers.1,
                  t.free,
                  t.placed,
                )
          ]
    ]

-- A request that is refused leaves everything as it was.
pub create_order_rollback :
    (d : Draw) (input : OrderInput) (db db' : Db) (e : Error)
    → create_order d input db ≡ (err e, db')
    → db' ≡ db
unfolding create_order place_lines
create_order_rollback d input db db' e r =
    elim (Result-cases (check_items db.products input.items)) [
      | inr (x, c) ↦ ground (arith, c)
      | inl (ls, c) ↦
          elim (Result-cases (assert_stock_for_new_order (map (new_order_line db) ls))) [
            | inr (x, k) ↦ ground (arith, c, k)
            | inl (v, k) ↦
                try_numbers_err d input ls
                  (estimate_prep_minutes (map prep_line ls) (count_orders_in_kitchen none db)) 5 0
                  db db' e (ground (arith, c, k))
          ]
    ]

-- The rows of a placed order: it is pending, and every other order and payment is as it was.
pub place_rows :
    (d : Draw) (input : OrderInput) (ls : List ItemLine) (number : Text) (minutes : ℕ) (db : Db)
    (id : ℕ)
    → (d.order_id == id) ≡ false
    → (lookup id (place d input ls (new_order d input ls number minutes) db).orders
        ≡ lookup id db.orders)
      × (lookup id (place d input ls (new_order d input ls number minutes) db).payments
          ≡ lookup id db.payments)
unfolding place payment_method_of
place_rows d input ls number minutes db id n = grind (arith, lookup-insert)

pub place_pending :
    (d : Draw) (input : OrderInput) (ls : List ItemLine) (number : Text) (minutes : ℕ) (db : Db)
    → (o : Order) × (lookup d.order_id
          (place d input ls (new_order d input ls number minutes) db).orders
        ≡ some o)
      × (o.status ≡ OrderStatus.pending)
unfolding place new_order
place_pending d input ls number minutes db =
    (new_order d input ls number minutes, grind (arith, lookup-insert), refl)

-- The rows of the items, one for each line, put in after one another.
pub ItemRows : Draw → ℕ → List ItemLine → Dict OrderItem → Dict OrderItem → Type 0
ItemRows d n [] items items' = items ≡ items'
ItemRows d n (l ∷ ls) items items' =
    (r : OrderItem) × (r.order_id ≡ d.order_id)
    × (r.product_id ≡ l.item.product_id)
    × (r.qty ≡ l.item.qty)
    × (r.unit_price ≡ l.product.price)
    × (r.subtotal ≡ l.product.price * l.item.qty)
    × (r.special_instructions ≡ l.item.special_instructions)
    × ItemRows d (suc n) ls (insert (d.item_id n) r items) items'

insert_items-ItemRows :
    (d : Draw) (n : ℕ) (ls : List ItemLine) (items : Dict OrderItem)
    → ItemRows d n ls items (insert_items d n ls items)
unfolding ItemRows insert_items
insert_items-ItemRows d n [] items = refl
insert_items-ItemRows d n (l ∷ ls) items = (
  item_row d.order_id l,
  refl,
  refl,
  refl,
  refl,
  refl,
  refl,
  insert_items-ItemRows d (suc n) ls (insert (d.item_id n) (item_row d.order_id l) items),
)

-- What the lines cost together.
pub price_of : List ItemLine → ℕ
price_of [] = 0
price_of (l ∷ ls) = l.product.price * l.item.qty + price_of ls

total-price_of : (ls : List ItemLine) → total ls ≡ price_of ls
unfolding total price_of
total-price_of [] = refl
total-price_of (l ∷ ls) = ground (arith, total-price_of ls)

-- A payment that is due for an order.
abbrev pub Due : Order → Payment → Type 0
Due o p =
    (p.status ≡ PaymentStatus.pending)
    × (p.amount ≡ o.total_amount)
    × (p.reference ≡ none)
    × (p.paid_at ≡ none)

-- The payments with the new order's, if a method was chosen.
abbrev pub WithDue : ℕ → Order → Option PaymentMethod → Dict Payment → Dict Payment → Type 0
WithDue id o none ps ps' = ps' ≡ ps
WithDue id o (some m) ps ps' = (p : Payment) × Due o p × (ps' ≡ insert id p ps)

with_pending-WithDue :
    (id : ℕ) (o : Order) (asked method : Option PaymentMethod) (ps : Dict Payment)
    → is_some asked ≡ is_some method
    → WithDue id o asked ps (with_pending id o method ps)
with_pending-WithDue id o none none ps h = refl
with_pending-WithDue id o none (some m) ps h = cc
with_pending-WithDue id o (some a) none ps h = cc
with_pending-WithDue id o (some a) (some m) ps h =
    (pending_payment m none o, (refl, refl, refl, refl), refl)

method_chosen :
    (configured : Bool) (m : Option PaymentMethod)
    → is_some m ≡ is_some (payment_method_of configured m)
unfolding payment_method_of
method_chosen configured none = refl
method_chosen configured (some m) = ground arith

-- An order that is placed: its items are the request's, each of a product that is available; all
-- its dishes can be made and the stock covers them together; it has a number that no order had, is
-- pending and not flagged, and its total is what the items cost; each item has its row, with its
-- price; a payment of the total is due if a method was chosen; and nothing else but the events
-- changes.
pub create_order-placed :
    (d : Draw) (input : OrderInput) (db db' : Db) (dto : Option OrderDto)
    → create_order d input db ≡ (ok dto, db')
    → (ls : List ItemLine) × (o : Order) × Available db.products input.items ls
      × All IsMakeable (map stock_line_of (map (new_order_line db) ls))
      × Covers db (map stock_line_of (map (new_order_line db) ls))
      × (number_taken o.order_number db.orders ≡ false)
      × (o.status ≡ OrderStatus.pending)
      × (o.stock_issue ≡ false)
      × (o.total_amount ≡ price_of ls)
      × ItemRows d 0 ls db.order_items db'.order_items
      × WithDue d.order_id o input.payment_method db.payments db'.payments
      × (db' ≡ record db {
        orders = insert d.order_id o db.orders;
        order_items = db'.order_items;
        payments = db'.payments;
        events = db.events ++ orders_changed ∷ [];
      })
unfolding place new_order
create_order-placed d input db db' dto r =
    let (ls, n, minutes, a, m, c, f, tables) = create_order-Attempt d input db db' dto r in
    let o = new_order d input ls (d.number n) minutes in
    let items : db'.order_items ≡ insert_items d 0 ls db.order_items = ground (arith, tables) in
    let payments : db'.payments
        ≡ with_pending d.order_id o (payment_method_of d.configured input.payment_method)
            db.payments =
      ground (arith, tables) in
    (
      ls,
      o,
      a,
      m,
      c,
      f,
      refl,
      refl,
      total-price_of ls,
      rw items (insert_items-ItemRows d 0 ls db.order_items),
      rw payments (
          with_pending-WithDue d.order_id o input.payment_method
            (payment_method_of d.configured input.payment_method) db.payments
            (method_chosen d.configured input.payment_method)),
      ground (arith, tables),
    )
