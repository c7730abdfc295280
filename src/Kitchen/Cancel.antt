-- ===== src/Kitchen/Cancel.antt =====
-- Cancelling an order in the kitchen: `cancelKitchenOrder` of
-- apps/api/src/modules/kitchen/service.ts. A transaction is one step, so the row's lock is not
-- modelled.
pub mod Refund
use zak_s_sizzling.Prelude.{
  ℕ, ◌+◌, ◌/◌, ◌%◌, Bool, true, false, not, ◌&&◌, Option, none, some, List, [], ◌∷◌, ◌++◌, ◌==◌,
  if◌then◌else◌,
}
use zak_s_sizzling.Prelude.Text.{Text, text, decimal}
use zak_s_sizzling.Prelude.Dict.{Dict, lookup, insert}
use zak_s_sizzling.Store.{
  Db, Order, OrderItem, OrderStatus, Payment, PaymentMethod, KitchenTask, KitchenStatus,
  orders_changed, Error, http_error, Result, ok, err, Proc, pure, read, or_throw, emit, transaction,
  settle, continue, update_where, ◌>>=◌, ◌>>◌,
}
use zak_s_sizzling.Stock.Needs.{StockLine}
use zak_s_sizzling.Stock.Deduct.{items_of, stock_lines, TouchedStock}
use zak_s_sizzling.Stock.Return.{ReturnLog, return_stock_for_lines}
use zak_s_sizzling.Stock.Refresh.{refresh_availability}
use zak_s_sizzling.Payments.AttentionNote.{add_attention_note}
use zak_s_sizzling.Kitchen.{order_not_found, handed_over_error, is_in_kitchen}

-- `Number(amount).toFixed(2)`, of an amount in centavos.
unfoldable pub fixed_2 : ℕ → Text
fixed_2 n = decimal (n / 100) ++ (text "." ++ (decimal (n % 100 / 10) ++ decimal (n % 10)))

unfoldable pub paid_by : Option Payment → Text
paid_by none = text "paid online"
paid_by (some p) = elim p.method [
  | PaymentMethod.counter ↦ text "paid at the counter"
  | _ ↦ text "paid online"
]

unfoldable pub refund_note : Text → Order → Option Payment → Text
unfolding fixed_2 paid_by
refund_note reason o payment =
    text "Cancelled in the kitchen: "
    ++ (reason
        ++ (text ". Refund the customer ₱"
            ++ (fixed_2 o.total_amount ++ (text " (" ++ (paid_by payment ++ text ").")))))

pub already_cancelled_error : Order → Error
already_cancelled_error o = http_error 409 (o.order_number ++ text " is already cancelled")

pub not_in_kitchen_error : Order → Error
not_in_kitchen_error o = http_error 409 (o.order_number ++ text " hasn't reached the kitchen")

-- Why no row was changed.
pub cancel_refusal : Order → Error
cancel_refusal o = elim o.status [
  | OrderStatus.completed ↦ handed_over_error o
  | OrderStatus.cancelled ↦ already_cancelled_error o
  | _ ↦ not_in_kitchen_error o
]

abbrev pub cancelled_row : ℕ → Text → Text → Order → Order
cancelled_row now reason note o = record o {
  status = OrderStatus.cancelled;
  cancelled_at = some now;
  cancel_reason = some reason;
  stock_issue = Bool.true;
  stock_issue_note = some note;
}

-- `kitchenTask: { status: "pending" }`: an item whose task nobody has started.
abbrev pub is_unstarted : Option KitchenTask → Bool
is_unstarted none = false
is_unstarted (some t) = elim t.status [ KitchenStatus.pending ↦ Bool.true | _ ↦ Bool.false ]

unfoldable pub unstarted_items : ℕ → Dict KitchenTask → Dict OrderItem → List OrderItem
unstarted_items order_id tasks [] = []
unstarted_items order_id tasks ((id, i) ∷ is) =
    let rest = unstarted_items order_id tasks is in
    if i.order_id == order_id && is_unstarted (lookup id tasks) then i ∷ rest else rest

unfoldable pub unstarted_lines : ℕ → Db → List StockLine
unfolding unstarted_items
unstarted_lines order_id db =
    stock_lines db.products db.raw_materials
      (unstarted_items order_id db.kitchen_tasks db.order_items)

-- The conditional update, and the answer when it changes no row.
unfoldable pub mark_cancelled : ℕ → ℕ → Text → Text → Order → Proc (Unit {0})
unfolding cancel_refusal
mark_cancelled now order_id reason note o db =
    let (orders, done) =
      update_where order_id (λ r. is_in_kitchen r.status) (cancelled_row now reason note)
        db.orders in
    if done then (ok tt, record db { orders = orders }) else (err (cancel_refusal o), db)

unfoldable pub return_log : ℕ → ℕ → Order → ReturnLog
return_log order_id user_id o = record {
  order_id = order_id;
  user_id = user_id;
  note = text "Order " ++ (o.order_number ++ text " cancelled in the kitchen");
}

unfoldable pub cancelled_note : Text → Order → Option Payment → Text
unfolding refund_note
cancelled_note reason o payment =
    add_attention_note o.stock_issue_note o.stock_issue (refund_note reason o payment)

unfoldable pub cancel_and_return : ℕ → ℕ → Text → ℕ → Proc TouchedStock
unfolding mark_cancelled unstarted_lines cancelled_note return_log
cancel_and_return now order_id reason user_id = do
  order ← (λ db. or_throw (lookup order_id db.orders) order_not_found db)
  payment ← read (λ db. lookup order_id db.payments)
  mark_cancelled now order_id reason (cancelled_note reason order payment) order
  lines ← read (unstarted_lines order_id)
  return_stock_for_lines lines (return_log order_id user_id order)

unfoldable pub cancel_kitchen_order : ℕ → ℕ → Text → ℕ → Proc (Unit {0})
unfolding cancel_and_return
cancel_kitchen_order now order_id reason user_id = do
  touched ← transaction (cancel_and_return now order_id reason user_id)
  refresh_availability touched
  emit orders_changed
