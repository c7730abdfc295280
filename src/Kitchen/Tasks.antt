-- ===== src/Kitchen/Tasks.antt =====
-- The tasks that `createKitchenTasksForOrder` creates.
use zak_s_sizzling.Prelude.{ℕ, ◌≡◌, some, [], ◌∷◌, arith, ◌==◌, if◌then◌else◌, is_some, inl, inr}
use zak_s_sizzling.Prelude.Dict.{Dict, lookup, insert, lookup-insert, NodupKeys}
use zak_s_sizzling.Store.{Db, OrderItem, KitchenTask, Result-cases, ok, modify}
use zak_s_sizzling.Stock.Deduct.{items_of}
use zak_s_sizzling.Stock.Deduct.Items.{lookup-items_of}
use zak_s_sizzling.Orders.PrepTime.{set_estimate}
use zak_s_sizzling.Orders.PrepTime.Queue.{order_minutes, set_estimate_on_reaching_kitchen_lem}
use zak_s_sizzling.Kitchen.{create_tasks, new_task, insert_tasks, create_kitchen_tasks_for_order}

lookup-create_tasks :
    (items : Dict OrderItem) (tasks tasks' : Dict KitchenTask) (id : ℕ)
    → create_tasks items tasks ≡ ok tasks'
    → lookup id tasks' ≡ (if is_some (lookup id items) then some new_task else lookup id tasks)
unfolding create_tasks
lookup-create_tasks [] tasks tasks' id e = ground arith
lookup-create_tasks ((j, i) ∷ items) tasks tasks' id e = ground (
  arith,
  lookup-create_tasks items (insert j new_task tasks) tasks' id,
  lookup-insert j id new_task tasks,
)

-- Every item of the order has a task that nobody has started, and every other task is as it was.
pub lookup-create_kitchen_tasks :
    (order_id id : ℕ) (items : Dict OrderItem) (tasks tasks' : Dict KitchenTask) (i : OrderItem)
    → NodupKeys items
    → create_tasks (items_of order_id items) tasks ≡ ok tasks'
    → lookup id items ≡ some i
    → lookup id tasks' ≡ (if i.order_id == order_id then some new_task else lookup id tasks)
lookup-create_kitchen_tasks order_id id items tasks tasks' i n e l = ground (
  arith,
  lookup-create_tasks (items_of order_id items) tasks tasks' id e,
  lookup-items_of order_id id items i n l,
)

pub create_kitchen_tasks_for_order-Created :
    (now order_id : ℕ) (db db' : Db)
    → create_kitchen_tasks_for_order now order_id db ≡ (ok tt, db')
    → (create_tasks (items_of order_id db.order_items) db.kitchen_tasks ≡ ok db'.kitchen_tasks)
      × (db' ≡ record db {
        orders = modify order_id (set_estimate now (order_minutes order_id db)) db.orders;
        kitchen_tasks = db'.kitchen_tasks;
      })
unfolding create_kitchen_tasks_for_order insert_tasks
create_kitchen_tasks_for_order-Created now order_id db db' r =
    elim (Result-cases (create_tasks (items_of order_id db.order_items) db.kitchen_tasks)) [
      | inr (x, e) ↦ ground (arith, e, set_estimate_on_reaching_kitchen_lem now order_id db)
      | inl (tasks, e) ↦ ground (arith, e, set_estimate_on_reaching_kitchen_lem now order_id db)
    ]
