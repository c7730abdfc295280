-- ===== src/Kitchen.antt =====
-- The kitchen display (apps/api/src/modules/kitchen/service.ts). A kitchen task has the id of its
-- order item. Each statement outside a transaction is a step of its own.
pub mod Tasks
pub mod Status
pub mod Update
pub mod Display
pub mod HandOver
pub mod Cancel
use zak_s_sizzling.Prelude.{
  ℕ, ◌+◌, ◌-◌, ◌*◌, ◌/◌, ◌%◌, ◌<◌, Bool, true, false, not, ◌&&◌, ◌||◌, Option, none, some, List, [],
  ◌∷◌, ◌++◌, ◌==◌, leb, every, any, is_some, if◌then◌else◌, length,
}
use zak_s_sizzling.Prelude.Text.{Text, text, decimal}
use zak_s_sizzling.Prelude.Dict.{Dict, lookup, insert}
use zak_s_sizzling.Store.{
  Db, Order, OrderItem, OrderType, OrderStatus, Product, Payment, PaymentMethod, KitchenTask,
  KitchenStatus, Event, orders_changed, task_updated, Error, http_error, unique_violation, Result,
  ok, err, Proc, pure, throw, read, lift, or_throw, throw_if, write, emit, transaction,
  update_where, modify, ◌>>=◌, ◌>>◌,
}
use zak_s_sizzling.Stock.Deduct.{items_of, item_rows, stock_lines, TouchedStock}
use zak_s_sizzling.Stock.Return.{ReturnLog, return_stock_for_lines}
use zak_s_sizzling.Stock.Refresh.{refresh_availability}
use zak_s_sizzling.Orders.PrepTime.{set_estimate_on_reaching_kitchen}
use zak_s_sizzling.Payments.AttentionNote.{add_attention_note}

pub record KitchenTaskDto : Type 0 where
  pub id : ℕ
  pub order_id : ℕ
  pub order_number : Text
  pub order_created_at : ℕ
  pub order_estimated_ready_at : Option ℕ
  pub order_type : OrderType
  pub order_status : OrderStatus
  pub product_id : ℕ
  pub product_name : Text
  pub qty : ℕ
  pub special_instructions : Option Text
  pub status : KitchenStatus
  pub started_at : Option ℕ
  pub completed_at : Option ℕ

-- A task with its item, its product and its order, as the query joins them.
pub record TaskRow : Type 0 where
  pub id : ℕ
  pub task : KitchenTask
  pub item : OrderItem
  pub product : Product
  pub order : Order

pub to_task_dto : TaskRow → KitchenTaskDto
to_task_dto r = record {
  id = r.id;
  order_id = r.item.order_id;
  order_number = r.order.order_number;
  order_created_at = r.order.created_at;
  order_estimated_ready_at = r.order.estimated_ready_at;
  order_type = r.order.order_type;
  order_status = r.order.status;
  product_id = r.item.product_id;
  product_name = r.product.name;
  qty = r.item.qty;
  special_instructions = r.item.special_instructions;
  status = r.task.status;
  started_at = r.task.started_at;
  completed_at = r.task.completed_at;
}

abbrev pub new_task : KitchenTask
new_task = record { status = KitchenStatus.pending; started_at = none; completed_at = none }

-- `createMany`: one task for each item; the item's column is unique.
unfoldable pub create_tasks : Dict OrderItem → Dict KitchenTask → Result (Dict KitchenTask)
create_tasks [] tasks = ok tasks
create_tasks ((id, i) ∷ is) tasks =
    let rest = create_tasks is (insert id new_task tasks) in
    if is_some (lookup id tasks) then err unique_violation else rest

unfoldable pub insert_tasks : ℕ → Proc (Unit {0})
insert_tasks order_id db = elim (create_tasks (items_of order_id db.order_items) db.kitchen_tasks) [
  | err e ↦ (err e, db)
  | ok tasks ↦ (ok tt, record db { kitchen_tasks = tasks })
]

unfoldable pub create_kitchen_tasks_for_order : ℕ → ℕ → Proc (Unit {0})
unfolding insert_tasks
create_kitchen_tasks_for_order now order_id = do
  set_estimate_on_reaching_kitchen now order_id
  insert_tasks order_id

abbrev pub task_row : Db → ℕ → KitchenTask → Option TaskRow
task_row db id t = elim (lookup id db.order_items) [
  | none ↦ none
  | some i ↦ elim (lookup i.product_id db.products) [
    | none ↦ none
    | some p ↦ elim (lookup i.order_id db.orders) [
      | none ↦ none
      | some o ↦ some (record { id = id; task = t; item = i; product = p; order = o })
    ]
  ]
]

abbrev pub is_done : KitchenStatus → Bool
is_done KitchenStatus.completed = true
is_done _ = false

abbrev pub is_started : KitchenStatus → Bool
is_started KitchenStatus.pending = false
is_started _ = true

pub task_not_found : Error
task_not_found = http_error 404 (text "Kitchen task not found")

pub order_not_found : Error
order_not_found = http_error 404 (text "Order not found")

pub handed_over_error : Order → Error
handed_over_error o = http_error 409 (o.order_number ++ text " was already handed over")

pub was_cancelled_error : Order → Error
was_cancelled_error o = http_error 409 (o.order_number ++ text " was cancelled")

-- The refusals before a task is written.
unfoldable pub open_for_tasks : Order → Result (Unit {0})
open_for_tasks o = elim o.status [
  | OrderStatus.completed ↦ err (handed_over_error o)
  | OrderStatus.cancelled ↦ err (was_cancelled_error o)
  | _ ↦ ok tt
]

-- `startedAt` is set once, by the first start; `completedAt` whenever the dish is done.
unfoldable pub set_status : ℕ → KitchenStatus → KitchenTask → KitchenTask
set_status now status t = record t {
  status = status;
  started_at = elim status [
    | KitchenStatus.in_progress ↦ if is_some t.started_at then t.started_at else some now
    | _ ↦ t.started_at
  ];
  completed_at = elim status [ KitchenStatus.completed ↦ some now | _ ↦ none ];
}

-- The statuses of an order's tasks.
unfoldable pub statuses_of : ℕ → Dict OrderItem → Dict KitchenTask → List KitchenStatus
statuses_of order_id [] tasks = []
statuses_of order_id ((id, i) ∷ is) tasks =
    let rest = statuses_of order_id is tasks in
    if i.order_id == order_id
    then elim (lookup id tasks) [ none ↦ rest | some t ↦ t.status ∷ rest ]
    else rest

unfoldable pub next_status : List KitchenStatus → OrderStatus
next_status ss =
    if every is_done ss
    then OrderStatus.ready
    else if any is_started ss
    then OrderStatus.preparing
    else OrderStatus.confirmed

-- The statuses that only the kitchen's dishes move.
abbrev pub is_in_kitchen : OrderStatus → Bool
is_in_kitchen OrderStatus.confirmed = true
is_in_kitchen OrderStatus.preparing = true
is_in_kitchen OrderStatus.ready = true
is_in_kitchen _ = false

abbrev pub status_eq : OrderStatus → OrderStatus → Bool
status_eq OrderStatus.pending OrderStatus.pending = true
status_eq OrderStatus.confirmed OrderStatus.confirmed = true
status_eq OrderStatus.preparing OrderStatus.preparing = true
status_eq OrderStatus.ready OrderStatus.ready = true
status_eq OrderStatus.completed OrderStatus.completed = true
status_eq OrderStatus.cancelled OrderStatus.cancelled = true
status_eq _ _ = false

abbrev pub set_order_status : OrderStatus → Order → Order
set_order_status s o = record o { status = s }

abbrev pub follows : OrderStatus → Order → Bool
follows next o = is_in_kitchen o.status && not (status_eq o.status next)

unfoldable pub move_order : ℕ → OrderStatus → Db → Db
move_order order_id next db =
    let (orders, moved) = update_where order_id (follows next) (set_order_status next) db.orders in
    record db {
      orders = orders;
      events = if moved then db.events ++ orders_changed ∷ [] else db.events;
    }

abbrev pub is_nil {ℓ} : {A : Type ℓ} → List A → Bool
is_nil [] = true
is_nil (x ∷ xs) = false

unfoldable pub sync_order_status : ℕ → Proc (Unit {0})
unfolding move_order
sync_order_status order_id db =
    let ss = statuses_of order_id db.order_items db.kitchen_tasks in
    (ok tt, if is_nil ss then db else move_order order_id (next_status ss) db)

unfoldable pub write_task : ℕ → ℕ → KitchenStatus → Proc (Unit {0})
write_task now id status db =
    (ok tt, record db { kitchen_tasks = modify id (set_status now status) db.kitchen_tasks })

unfoldable pub find_task_row : ℕ → Db → Option TaskRow
find_task_row id db = elim (lookup id db.kitchen_tasks) [ none ↦ none | some t ↦ task_row db id t ]

-- The row that is answered is read with the update, before the order follows its dishes.
unfoldable pub update_task_status : ℕ → ℕ → KitchenStatus → Proc KitchenTaskDto
update_task_status now task_id status = do
  existing ← (λ db. or_throw (find_task_row task_id db) task_not_found db)
  lift (open_for_tasks existing.order)
  write_task now task_id status
  task ← (λ db. or_throw (find_task_row task_id db) task_not_found db)
  emit (task_updated task_id task.item.order_id task.task.status)
  sync_order_status task.item.order_id
  pure (to_task_dto task)
