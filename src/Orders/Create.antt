-- ===== src/Orders/Create.antt =====
-- Placing an order: `createOrder` of apps/api/src/modules/orders/service.ts. The random order
-- numbers, the database's fresh ids and the gateway's configuration are arguments; the request's
-- schema has at least one item, and at least one of each.
pub mod Placed
use zak_s_sizzling.Prelude.{
  ℕ, zero, suc, ◌+◌, ◌*◌, Bool, true, false, not, ◌&&◌, ◌||◌, Option, none, some, List, [], ◌∷◌,
  ◌++◌, ◌==◌, if◌then◌else◌, map, or_else,
}
use zak_s_sizzling.Prelude.Text.{Text, text, text_eq, decimal}
use zak_s_sizzling.Prelude.Dict.{Dict, lookup, insert}
use zak_s_sizzling.Store.{
  Db, Order, OrderItem, OrderType, OrderStatus, Product, Payment, PaymentMethod, PaymentStatus,
  Inventory, RawMaterial, orders_changed, Error, http_error, Result, ok, err, Proc, pure, read,
  emit, continue, ◌>>=◌, ◌>>◌,
}
use zak_s_sizzling.Stock.Deduct.{stock_line}
use zak_s_sizzling.Stock.NewOrder.{NewOrderLine, assert_stock_for_new_order}
use zak_s_sizzling.Orders.PrepTime.{PrepLine, estimate_prep_minutes, count_orders_in_kitchen}
use zak_s_sizzling.Orders.Dto.{OrderDto, get_order_by_id}
use zak_s_sizzling.Payments.QrPh.{pending_payment}

pub record NewItem : Type 0 where
  pub product_id : ℕ
  pub qty : ℕ
  pub special_instructions : Option Text

pub record OrderInput : Type 0 where
  pub items : List NewItem
  pub customer_name : Option Text
  pub kiosk_session_id : Option Text
  pub payment_method : Option PaymentMethod
  pub order_type : Option OrderType

-- What the outside decides: the clock, PayMongo's configuration, the ids and the numbers drawn.
pub record Draw : Type 0 where
  pub now : ℕ
  pub configured : Bool
  pub order_id : ℕ
  pub item_id : ℕ → ℕ
  pub number : ℕ → Text

pub product_not_found : ℕ → Error
product_not_found id = http_error 404 (text "Product " ++ (decimal id ++ text " not found"))

pub unavailable_error : Product → Error
unavailable_error p = http_error 409 (p.name ++ text " is currently unavailable")

-- An item with its product, as every later step looks it up.
pub record ItemLine : Type 0 where
  pub item : NewItem
  pub product : Product

-- The first loop: every product exists and is available.
unfoldable pub check_items : Dict Product → List NewItem → Result (List ItemLine)
unfolding product_not_found unavailable_error
check_items ps [] = ok []
check_items ps (i ∷ is) = elim (lookup i.product_id ps) [
  | none ↦ err (product_not_found i.product_id)
  | some p ↦
      let rest = check_items ps is in
      if p.is_available
      then elim rest [ err e ↦ err e | ok ls ↦ ok (record { item = i; product = p } ∷ ls) ]
      else err (unavailable_error p)
]

abbrev pub stock_qty_of : Option Inventory → Option ℕ
stock_qty_of none = none
stock_qty_of (some r) = some r.stock_qty

unfoldable pub new_order_line : Db → ItemLine → NewOrderLine
new_order_line db l = record {
  line = stock_line db.raw_materials l.item.qty l.item.product_id l.product;
  inventory = stock_qty_of (lookup l.item.product_id db.inventory);
}

abbrev pub subtotal : ItemLine → ℕ
subtotal l = l.product.price * l.item.qty

unfoldable pub total : List ItemLine → ℕ
total [] = 0
total (l ∷ ls) = subtotal l + total ls

unfoldable pub item_row : ℕ → ItemLine → OrderItem
item_row order_id l = record {
  order_id = order_id;
  product_id = l.item.product_id;
  qty = l.item.qty;
  unit_price = l.product.price;
  subtotal = subtotal l;
  special_instructions = l.item.special_instructions;
}

abbrev pub prep_line : ItemLine → PrepLine
prep_line l = record { prep_minutes = l.product.prep_minutes; qty = l.item.qty }

abbrev is_counter : PaymentMethod → Bool
is_counter PaymentMethod.counter = true
is_counter _ = false

-- Without PayMongo, an order that is not for the counter becomes a counter order.
unfoldable pub payment_method_of : Bool → Option PaymentMethod → Option PaymentMethod
payment_method_of configured none = none
payment_method_of configured (some m) =
    if not (is_counter m) && not configured then some PaymentMethod.counter else some m

unfoldable pub new_order : Draw → OrderInput → List ItemLine → Text → ℕ → Order
unfolding total
new_order d input ls number minutes = record {
  order_number = number;
  customer_name = input.customer_name;
  kiosk_session_id = input.kiosk_session_id;
  status = OrderStatus.pending;
  order_type = or_else input.order_type OrderType.dine_in;
  total_amount = total ls;
  stock_issue = Bool.false;
  stock_issue_note = none;
  estimated_prep_minutes = some minutes;
  estimated_ready_at = none;
  handed_over_at = none;
  cancelled_at = none;
  cancel_reason = none;
  created_at = d.now;
}

unfoldable pub insert_items : Draw → ℕ → List ItemLine → Dict OrderItem → Dict OrderItem
unfolding item_row
insert_items d n [] items = items
insert_items d n (l ∷ ls) items =
    insert_items d (suc n) ls (insert (d.item_id n) (item_row d.order_id l) items)

abbrev pub with_pending : ℕ → Order → Option PaymentMethod → Dict Payment → Dict Payment
with_pending id o none ps = ps
with_pending id o (some m) ps = insert id (pending_payment m none o) ps

-- The order with its items and its pending payment, in one statement.
unfoldable pub place : Draw → OrderInput → List ItemLine → Order → Db → Db
unfolding insert_items payment_method_of
place d input ls o db = record db {
  orders = insert d.order_id o db.orders;
  order_items = insert_items d 0 ls db.order_items;
  payments =
      with_pending d.order_id o (payment_method_of d.configured input.payment_method) db.payments;
}

unfoldable pub number_taken : Text → Dict Order → Bool
number_taken t [] = false
number_taken t ((id, o) ∷ os) = text_eq o.order_number t || number_taken t os

pub no_number_error : Error
no_number_error = http_error 500 (text "Could not generate a unique order number, please retry")

-- The retries: `left` attempts are left, and `n` were made. A taken number throws P2002.
unfoldable pub try_numbers : Draw → OrderInput → List ItemLine → ℕ → ℕ → ℕ → Proc (Option OrderDto)
unfolding new_order place number_taken no_number_error
try_numbers d input ls minutes zero n db = (err no_number_error, db)
try_numbers d input ls minutes (suc left) n db =
    let rest = try_numbers d input ls minutes left (suc n) db in
    let o = new_order d input ls (d.number n) minutes in
    if number_taken (d.number n) db.orders
    then rest
    else (do emit orders_changed; read (get_order_by_id d.order_id)) (place d input ls o db)

unfoldable pub place_lines : Draw → OrderInput → List ItemLine → Proc (Option OrderDto)
unfolding try_numbers new_order_line
place_lines d input ls = do
  (λ db. (assert_stock_for_new_order (map (new_order_line db) ls), db))
  ahead ← read (count_orders_in_kitchen none)
  try_numbers d input ls (estimate_prep_minutes (map prep_line ls) ahead) 5 0

unfoldable pub create_order : Draw → OrderInput → Proc (Option OrderDto)
unfolding check_items place_lines
create_order d input = do
  ls ← (λ db. (check_items db.products input.items, db))
  place_lines d input ls
