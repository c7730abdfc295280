-- ===== src/Tests/Kitchen.antt =====
-- Sample kitchen calls.
use zak_s_sizzling.Kitchen.{is_in_kitchen, update_task_status}
use zak_s_sizzling.Kitchen.Cancel.{
  refund_note, cancel_and_return, cancel_kitchen_order, mark_cancelled, unstarted_items,
  unstarted_lines,
}
use zak_s_sizzling.Kitchen.Cancel.Refund.{Unstarted, cancel_kitchen_order_returns}
use zak_s_sizzling.Payments.AttentionNote.{add_attention_note}
use zak_s_sizzling.Stock.Deduct.{unit_stock, recipe_lines, stock_line, stock_lines}
use zak_s_sizzling.Stock.Needs.Demand.{unit_demand, material_demand}
use zak_s_sizzling.Store.{OrderItem, KitchenTask, Order, Db, KitchenStatus, OrderStatus, ok}
use zak_s_sizzling.Kitchen.Status.{Dishes, StandsFor}
use zak_s_sizzling.Kitchen.Update.{Found, update_task_status_follows}
use zak_s_sizzling.Prelude.{◌≡◌, ◌+◌, refl, some, List, true}
use zak_s_sizzling.Prelude.Dict.{lookup}
use zak_s_sizzling.Prelude.Sort.{sort_by_key}
use zak_s_sizzling.Prelude.Text.{text}
use zak_s_sizzling.Stock.Deduct.Covered.{material_stock}
use zak_s_sizzling.Stock.Needs.{
  add_material, add_materials, add_unit, compute_stock_needs, needs_from,
}
use zak_s_sizzling.Stock.Refresh.{refresh_availability, refresh_loop}
use zak_s_sizzling.Stock.Return.{
  return_materials, return_materials_step, return_stock_for_lines, return_units, return_units_step,
}
use zak_s_sizzling.Tests.Sample.{cooking, item_70, order_7, sisig, task_of}

abbrev task_70 : (status : OrderStatus) → Found (cooking status) 70
task_70 status = record {
  task = task_of KitchenStatus.in_progress;
  item = item_70;
  product = sisig;
  order = record order_7 { status = status };
  has_task = refl;
  has_item = refl;
  has_product = refl;
  has_order = refl;
}

abbrev done_db : Db
done_db = (update_task_status 30 70 KitchenStatus.completed (cooking OrderStatus.preparing)).1

update_task_status_follows_example :
    (t : KitchenTask) × (o : Order) × (ss : List KitchenStatus) × (lookup 70 done_db.kitchen_tasks
      ≡ some t)
    × (t.status ≡ KitchenStatus.completed)
    × Dishes 7 done_db.kitchen_tasks done_db.order_items ss
    × (lookup 7 done_db.orders ≡ some o)
    × StandsFor o.status ss
    × (o ≡ record order_7 { status = o.status })
update_task_status_follows_example =
    update_task_status_follows 30 70 KitchenStatus.completed (cooking OrderStatus.preparing) done_db
      (task_70 OrderStatus.preparing) refl refl

abbrev kitchen : Db
kitchen = cooking OrderStatus.preparing

abbrev order_in : Order
order_in = record order_7 { status = OrderStatus.preparing }

abbrev cancelled_db : Db
cancelled_db = (cancel_kitchen_order 40 7 (text "fire") 3 (cooking OrderStatus.preparing)).1

cancelled_run :
    cancel_kitchen_order 40 7 (text "fire") 3 (cooking OrderStatus.preparing)
    ≡ (ok tt, cancelled_db)
unfolding cancel_kitchen_order cancel_and_return mark_cancelled unstarted_lines unstarted_items
    return_stock_for_lines return_units_step return_materials_step return_units return_materials
    compute_stock_needs needs_from add_unit add_material add_materials stock_lines stock_line
    recipe_lines sort_by_key refresh_availability refresh_loop
cancelled_run = refl

cancel_kitchen_order_returns_example :
    (o : Order) × (o' : Order) × (is : List OrderItem) × (some order_in ≡ some o)
    × (is_in_kitchen o.status ≡ true)
    × (lookup 7 cancelled_db.orders ≡ some o')
    × (o'.status ≡ OrderStatus.cancelled)
    × (o'.cancelled_at ≡ some 40)
    × (o'.cancel_reason ≡ some (text "fire"))
    × (o'.stock_issue ≡ true)
    × (o'.stock_issue_note
        ≡ some (
            add_attention_note o.stock_issue_note o.stock_issue
              (refund_note (text "fire") o (lookup 7 kitchen.payments))))
    × Unstarted 7 kitchen.kitchen_tasks kitchen.order_items is
    × (unit_stock (lookup 7 cancelled_db.inventory)
        ≡ unit_stock (lookup 7 kitchen.inventory)
          + unit_demand 7 (stock_lines kitchen.products kitchen.raw_materials is))
    × (material_stock (lookup 7 cancelled_db.raw_materials)
        ≡ material_stock (lookup 7 kitchen.raw_materials)
          + material_demand 7 (stock_lines kitchen.products kitchen.raw_materials is))
    × (cancelled_db.payments ≡ kitchen.payments)
cancel_kitchen_order_returns_example =
    cancel_kitchen_order_returns 40 7 (text "fire") 3 kitchen cancelled_db 7 cancelled_run
