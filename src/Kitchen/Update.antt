-- ===== src/Kitchen/Update.antt =====
-- Moving one dish: what `updateTaskStatus` writes, and when it refuses.
use zak_s_sizzling.Kitchen.Status.{
  Dishes, StandsFor, next_status-StandsFor, statuses_of-Dishes, sold_row, sync_order_status_sold,
  lookup-sync_order_status, followed,
}
use zak_s_sizzling.Prelude.{
  ℕ, ◌≡◌, refl, ap, true, some, List, [], ◌∷◌, arith, ◌≢◌, Option-cases, inl, inr, ◌++◌, ==_refl,
  ◌⊎◌,
}
use zak_s_sizzling.Prelude.Dict.{Dict, lookup, insert, lookup-insert_self}
use zak_s_sizzling.Store.{
  Result-cases, Db, Order, OrderItem, OrderStatus, KitchenTask, KitchenStatus, ok, err,
  task_updated, modify, continue,
}
use zak_s_sizzling.Kitchen.{
  is_in_kitchen, statuses_of, next_status, sync_order_status, update_task_status, set_status,
  write_task, open_for_tasks, find_task_row, TaskRow, Product, or_throw, handed_over_error,
  move_order, set_order_status, was_cancelled_error, Text, http_error, text,
}

statuses_of-ne-nil :
    (order_id id : ℕ) (items : Dict OrderItem) (tasks : Dict KitchenTask) (i : OrderItem)
    (t : KitchenTask)
    → lookup id items ≡ some i
    → i.order_id ≡ order_id
    → lookup id tasks ≡ some t
    → statuses_of order_id items tasks ≢ []
unfolding statuses_of
statuses_of-ne-nil order_id id [] tasks i t e o l = cc
statuses_of-ne-nil order_id id ((j, k) ∷ items) tasks i t e o l =
    ground (arith, statuses_of-ne-nil order_id id items tasks i t)

-- A task with the rows that the query joins to it.
pub record Found (db : Db) (id : ℕ) : Type 0 where
  pub task : KitchenTask
  pub item : OrderItem
  pub product : Product
  pub order : Order
  pub has_task : lookup id db.kitchen_tasks ≡ some task
  pub has_item : lookup id db.order_items ≡ some item
  pub has_product : lookup item.product_id db.products ≡ some product
  pub has_order : lookup item.order_id db.orders ≡ some order

abbrev pub row_of : {db : Db} {id : ℕ} → Found db id → TaskRow
row_of {id = id} f = record {
  id = id;
  task = f.task;
  item = f.item;
  product = f.product;
  order = f.order;
}

find_task_row-Found : (id : ℕ) (db : Db) (f : Found db id) → find_task_row id db ≡ some (row_of f)
unfolding find_task_row
find_task_row-Found id db f = ground (arith, f.has_task, f.has_item, f.has_product, f.has_order)

Found_of_find_task_row :
    (id : ℕ) (db : Db) (r : TaskRow)
    → find_task_row id db ≡ some r
    → (lookup id db.kitchen_tasks ≡ some r.task)
      × (lookup id db.order_items ≡ some r.item)
      × (lookup r.item.product_id db.products ≡ some r.product)
      × (lookup r.item.order_id db.orders ≡ some r.order)
      × (r.id ≡ id)
unfolding find_task_row
Found_of_find_task_row id db r e = ground arith

abbrev pub with_task : ℕ → KitchenTask → Db → Db
with_task id t db = record db { kitchen_tasks = insert id t db.kitchen_tasks }

-- The state in which the order's status is synced.
abbrev pub written : ℕ → ℕ → KitchenStatus → OrderItem → KitchenTask → Db → Db
written now task_id status i t db = record db {
  kitchen_tasks = insert task_id (set_status now status t) db.kitchen_tasks;
  events = db.events ++ task_updated task_id i.order_id status ∷ [];
}

abbrev Found-with_task :
    (id : ℕ) (t : KitchenTask) (db : Db) → Found db id → Found (with_task id t db) id
Found-with_task id t db f = record {
  task = t;
  item = f.item;
  product = f.product;
  order = f.order;
  has_task = lookup-insert_self id t db.kitchen_tasks;
  has_item = f.has_item;
  has_product = f.has_product;
  has_order = f.has_order;
}

update_task_status_lem :
    (now task_id : ℕ) (status : KitchenStatus) (db : Db) (f : Found db task_id)
    → open_for_tasks f.order ≡ ok tt
    → (update_task_status now task_id status db).1
      ≡ (sync_order_status f.item.order_id (written now task_id status f.item f.task db)).1
unfolding update_task_status write_task sync_order_status statuses_of set_status
update_task_status_lem now task_id status db f o =
    rw (find_task_row-Found task_id db f, or_throw, continue, update_task_status)
      (rw o (
        rw (f.has_task, or_throw, continue, modify)
          (rw (
            find_task_row-Found task_id (with_task task_id (set_status now status f.task) db)
                (Found-with_task task_id (set_status now status f.task) db f),
            or_throw,
            continue,
          ))))

sync_order_status_frame :
    (order_id : ℕ) (db : Db)
    → ((sync_order_status order_id db).1.kitchen_tasks ≡ db.kitchen_tasks)
      × ((sync_order_status order_id db).1.order_items ≡ db.order_items)
unfolding sync_order_status move_order
sync_order_status_frame order_id db = ground arith

open_for_tasks_in_kitchen : (o : Order) → is_in_kitchen o.status ≡ true → open_for_tasks o ≡ ok tt
unfolding open_for_tasks
open_for_tasks_in_kitchen o h = ground arith

followed-eq :
    (ss : List KitchenStatus) (o : Order)
    → ss ≢ []
    → is_in_kitchen o.status ≡ true
    → followed ss o ≡ set_order_status (next_status ss) o
followed-eq [] o n h = absurd (n refl)
followed-eq (s ∷ ss) o n h = rw h

update_task_status_rows :
    (now task_id : ℕ) (status : KitchenStatus) (db db' : Db) (f : Found db task_id)
    → is_in_kitchen f.order.status ≡ true
    → (update_task_status now task_id status db).1 ≡ db'
    → (lookup task_id db'.kitchen_tasks ≡ some (set_status now status f.task))
      × (lookup f.item.order_id db'.orders
          ≡ some (
              set_order_status
                (next_status (statuses_of f.item.order_id db'.order_items db'.kitchen_tasks))
                f.order))
update_task_status_rows now task_id status db db' f k e =
    let w = written now task_id status f.item f.task db in
    let frame = sync_order_status_frame f.item.order_id w in
    let ss = statuses_of f.item.order_id w.order_items w.kitchen_tasks in
    rw
      (
        ← e,
        update_task_status_lem now task_id status db f (open_for_tasks_in_kitchen f.order k),
        frame.0,
        frame.1,
      )
      (
        lookup-insert_self task_id (set_status now status f.task) db.kitchen_tasks,
        rw
            (
              lookup-sync_order_status f.item.order_id f.item.order_id w,
              f.has_order,
              ==_refl f.item.order_id,
            )
            (ap some (
              followed-eq ss f.order
                (statuses_of-ne-nil f.item.order_id task_id w.order_items w.kitchen_tasks f.item
                  (set_status now status f.task) f.has_item refl
                  (lookup-insert_self task_id (set_status now status f.task) db.kitchen_tasks))
                k)),
      )

-- Moving a dish of an order in the kitchen gives the dish that status, and the order the status that
-- its dishes stand for: ready exactly when every dish is completed, confirmed exactly when every
-- dish is pending, preparing otherwise; nothing else of the order's row changes.
pub update_task_status_follows :
    (now task_id : ℕ) (status : KitchenStatus) (db db' : Db) (f : Found db task_id)
    → is_in_kitchen f.order.status ≡ true
    → (update_task_status now task_id status db).1 ≡ db'
    → (t : KitchenTask) × (o : Order) × (ss : List KitchenStatus) × (lookup task_id
          db'.kitchen_tasks
        ≡ some t)
      × (t.status ≡ status)
      × Dishes f.item.order_id db'.kitchen_tasks db'.order_items ss
      × (lookup f.item.order_id db'.orders ≡ some o)
      × StandsFor o.status ss
      × (o ≡ record f.order { status = o.status })
unfolding set_status
update_task_status_follows now task_id status db db' f k e =
    let rows = update_task_status_rows now task_id status db db' f k e in
    let ss = statuses_of f.item.order_id db'.order_items db'.kitchen_tasks in
    let frame : db'.order_items ≡ db.order_items =
      rw
        (
          ← e,
          update_task_status_lem now task_id status db f (open_for_tasks_in_kitchen f.order k),
          (sync_order_status_frame f.item.order_id (written now task_id status f.item f.task db)).1,
        )
        refl in
    (
      set_status now status f.task,
      set_order_status (next_status ss) f.order,
      ss,
      rows.0,
      refl,
      statuses_of-Dishes f.item.order_id db'.order_items db'.kitchen_tasks,
      rows.1,
      next_status-StandsFor ss (
          statuses_of-ne-nil f.item.order_id task_id db'.order_items db'.kitchen_tasks f.item
            (set_status now status f.task) (rw frame f.has_item) refl rows.0),
      refl,
    )

-- A dish of an order that was handed over or cancelled cannot be moved: the call answers 409 and
-- changes nothing.
pub update_task_status_refused :
    (now task_id : ℕ) (status : KitchenStatus) (db : Db) (f : Found db task_id)
    → (f.order.status ≡ OrderStatus.completed) ⊎ (f.order.status ≡ OrderStatus.cancelled)
    → (message : Text) × (update_task_status now task_id status db
        ≡ (err (http_error 409 message), db))
unfolding update_task_status open_for_tasks handed_over_error was_cancelled_error
update_task_status_refused now task_id status db f (inl c) = (
  f.order.order_number ++ text " was already handed over",
  rw (find_task_row-Found task_id db f, or_throw, continue, update_task_status)
      (rw (c, open_for_tasks)),
)
update_task_status_refused now task_id status db f (inr c) = (
  f.order.order_number ++ text " was cancelled",
  rw (find_task_row-Found task_id db f, or_throw, continue, update_task_status)
      (rw (c, open_for_tasks)),
)

sync_order_status_payments :
    (order_id : ℕ) (db : Db) → (sync_order_status order_id db).1.payments ≡ db.payments
unfolding sync_order_status move_order
sync_order_status_payments order_id db = ground arith

-- Whatever it answers, moving a dish touches no payment and moves no order out of the sold ones or
-- into them.
pub update_task_status_sold :
    (now task_id : ℕ) (status : KitchenStatus) (id : ℕ) (db : Db)
    → ((update_task_status now task_id status db).1.payments ≡ db.payments)
      × (sold_row (lookup id (update_task_status now task_id status db).1.orders)
          ≡ sold_row (lookup id db.orders))
unfolding update_task_status
update_task_status_sold now task_id status id db = elim (Option-cases (find_task_row task_id db)) [
  | inl e ↦ ground (arith, e)
  | inr (r, e) ↦ elim (Result-cases (open_for_tasks r.order)) [
    | inr (x, o) ↦ ground (arith, e, o)
    | inl (v, o) ↦
        let k = Found_of_find_task_row task_id db r e in
        let f : Found db task_id = record {
          task = r.task;
          item = r.item;
          product = r.product;
          order = r.order;
          has_task = k.0;
          has_item = k.1;
          has_product = k.2;
          has_order = k.3;
        } in
        let w = written now task_id status f.item f.task db in
        rw (update_task_status_lem now task_id status db f o) (
          sync_order_status_payments r.item.order_id w,
          sync_order_status_sold r.item.order_id id w,
        )
  ]
]
