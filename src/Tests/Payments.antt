-- ===== src/Tests/Payments.antt =====
-- Sample payments.
use zak_s_sizzling.Kitchen.{create_kitchen_tasks_for_order, create_tasks, insert_tasks, new_task}
use zak_s_sizzling.Orders.Dto.{get_order_by_id}
use zak_s_sizzling.Orders.PrepTime.{set_estimate_on_reaching_kitchen}
use zak_s_sizzling.Payments.Confirm.{
  PaidCreate, PaidUpdate, already_paid_error, announce_paid_order, confirm_counter_snapshot,
  confirm_pending_order, fulfil, mark_payment_paid_if_not_already, pay_and_fulfil, payment_refusal,
}
use zak_s_sizzling.Payments.Confirm.Once.{confirm_counter_snapshot_settled, is_settled}
use zak_s_sizzling.Payments.Confirm.Paid.{
  confirm_counter_snapshot-demand, confirm_counter_snapshot-paid, confirm_counter_snapshot-tasks,
  confirm_counter_snapshot_rollback,
}
use zak_s_sizzling.Payments.Online.{
  fulfil_if, record_online_payment, take_and_fulfil, wrong_amount_note,
}
use zak_s_sizzling.Payments.Online.Taken.{Paid, record_online_payment_settled}
use zak_s_sizzling.Payments.Online.Wrong.{noted, record_online_payment-wrong}
use zak_s_sizzling.Payments.Webhook.{
  event_order_id, find_order, handle_first, handle_webhook, is_paid_event, paid_amount,
  record_amount, webhook_update,
}
use zak_s_sizzling.Payments.Webhook.Repeat.{handle_webhook_twice, qrph_event}
use zak_s_sizzling.Prelude.{ℕ, ◌≡◌, ◌+◌, refl, Bool, true, false, none, some, [], ◌∷◌}
use zak_s_sizzling.Prelude.Dict.{lookup}
use zak_s_sizzling.Prelude.Sort.{sort_by_key}
use zak_s_sizzling.Prelude.Text.{text}
use zak_s_sizzling.Stock.Deduct.{
  deduct_material, deduct_materials, deduct_needs, deduct_stock_for_order, deduct_units, item_rows,
  items_of, order_lines, recipe_lines, shortage_error, stock_line, stock_lines, unit_stock,
}
use zak_s_sizzling.Stock.Deduct.Covered.{material_stock}
use zak_s_sizzling.Stock.Needs.{
  add_material, add_materials, add_unit, compute_stock_needs, needs_from, unit_shortage,
}
use zak_s_sizzling.Stock.Needs.Demand.{material_demand, unit_demand}
use zak_s_sizzling.Stock.Refresh.{refresh_availability, refresh_loop}
use zak_s_sizzling.Store.{Db, Error, OrderStatus, PaymentMethod, Result, err, ok}
use zak_s_sizzling.Tests.Sample.{cooking, item_71, kiosk, order_7, payment_7, read_7}

confirm_counter_snapshot_settled_example :
    confirm_counter_snapshot 20 read_7 (cooking OrderStatus.confirmed)
    ≡ (err already_paid_error, cooking OrderStatus.confirmed)
confirm_counter_snapshot_settled_example =
    confirm_counter_snapshot_settled 20 read_7 (cooking OrderStatus.confirmed) refl

abbrev pub paid_db : Db
paid_db = (confirm_counter_snapshot 20 read_7 kiosk).1

pub confirm_run :
    confirm_counter_snapshot 20 read_7 kiosk ≡ (ok (get_order_by_id 7 paid_db), paid_db)
unfolding confirm_counter_snapshot pay_and_fulfil mark_payment_paid_if_not_already fulfil
    confirm_pending_order payment_refusal announce_paid_order deduct_stock_for_order deduct_needs
    deduct_units deduct_materials deduct_material compute_stock_needs needs_from add_unit
    add_material add_materials order_lines stock_lines stock_line recipe_lines items_of item_rows
    create_kitchen_tasks_for_order insert_tasks create_tasks set_estimate_on_reaching_kitchen
    refresh_availability refresh_loop sort_by_key text
confirm_run = refl

confirm_counter_snapshot-paid_example : is_settled 7 kiosk ≡ false
confirm_counter_snapshot-paid_example =
    (confirm_counter_snapshot-paid 20 read_7 kiosk paid_db (get_order_by_id 7 paid_db) 7
      confirm_run).0

confirm_counter_snapshot-tasks_example : lookup 71 paid_db.kitchen_tasks ≡ some new_task
confirm_counter_snapshot-tasks_example =
    confirm_counter_snapshot-tasks 20 read_7 kiosk paid_db (get_order_by_id 7 paid_db) 71 item_71
      (refl, (refl, tt)) confirm_run refl

confirm_counter_snapshot-demand_example :
    (unit_stock (lookup 1 paid_db.inventory) + unit_demand 1 (order_lines 7 kiosk)
      ≡ unit_stock (lookup 1 kiosk.inventory))
    × (material_stock (lookup 1 paid_db.raw_materials) + material_demand 1 (order_lines 7 kiosk)
        ≡ material_stock (lookup 1 kiosk.raw_materials))
confirm_counter_snapshot-demand_example =
    confirm_counter_snapshot-demand 20 read_7 kiosk paid_db (get_order_by_id 7 paid_db) 1
      confirm_run

-- The last unit is gone.
abbrev pub sold_out : Db
sold_out = record kiosk { inventory = [] }

abbrev short_db : Db
short_db = (confirm_counter_snapshot 20 read_7 sold_out).1

abbrev short_error : Error
short_error = shortage_error (unit_shortage 1 (record { name = text "Sisig"; qty = 2 }) 0 ∷ [])

short_run : confirm_counter_snapshot 20 read_7 sold_out ≡ (err short_error, short_db)
unfolding confirm_counter_snapshot pay_and_fulfil mark_payment_paid_if_not_already fulfil
    confirm_pending_order payment_refusal announce_paid_order deduct_stock_for_order deduct_needs
    deduct_units deduct_materials deduct_material compute_stock_needs needs_from add_unit
    add_material add_materials order_lines stock_lines stock_line recipe_lines items_of item_rows
    create_kitchen_tasks_for_order insert_tasks create_tasks set_estimate_on_reaching_kitchen
    refresh_availability refresh_loop sort_by_key text shortage_error unit_shortage
short_run = refl

confirm_counter_snapshot_rollback_example : short_db ≡ sold_out
confirm_counter_snapshot_rollback_example =
    confirm_counter_snapshot_rollback 20 read_7 sold_out short_db short_error short_run

abbrev pi_update : PaidUpdate
pi_update = record { method = some PaymentMethod.qrph; reference = some (text "pi"); paid_at = 20 }

abbrev pi_create : PaidCreate
pi_create = record { method = PaymentMethod.qrph; paid_at = 20 }

abbrev online : Db → Result (Unit {0}) × Db
online db = record_online_payment 20 read_7 480 (some (text "pi")) pi_update pi_create db

record_online_payment_settled_example :
    online (cooking OrderStatus.ready) ≡ (ok tt, cooking OrderStatus.ready)
record_online_payment_settled_example =
    record_online_payment_settled 20 read_7 (some (text "pi")) pi_update pi_create
      (cooking OrderStatus.ready) refl

abbrev wrong : Db
wrong = (record_online_payment 20 read_7 100 none pi_update pi_create kiosk).1

record_online_payment-wrong_example :
    ((record_online_payment 20 read_7 100 none pi_update pi_create kiosk).0 ≡ ok tt)
    × (wrong ≡ record kiosk { orders = wrong.orders; events = wrong.events })
    × (lookup 7 wrong.orders ≡ some (noted (wrong_amount_note 100 order_7 none) order_7))
record_online_payment-wrong_example =
    record_online_payment-wrong 20 read_7 100 none pi_update pi_create kiosk wrong order_7 7 refl
      refl refl

abbrev delivery : ℕ → Db → Result (Unit {0}) × Db
delivery now db =
    handle_webhook now true true (ok (record { succeeded = Bool.true; amount_centavos = 0 }))
      (qrph_event 7 (text "pi") 480) db

delivery_run : delivery 20 kiosk ≡ (ok tt, (delivery 20 kiosk).1)
unfolding handle_webhook is_paid_event find_order event_order_id handle_first paid_amount
    record_amount webhook_update record_online_payment take_and_fulfil fulfil_if
    mark_payment_paid_if_not_already fulfil confirm_pending_order announce_paid_order
    deduct_stock_for_order deduct_needs deduct_units deduct_materials deduct_material
    compute_stock_needs needs_from add_unit add_material add_materials order_lines stock_lines
    stock_line recipe_lines items_of item_rows create_kitchen_tasks_for_order insert_tasks
    create_tasks set_estimate_on_reaching_kitchen refresh_availability refresh_loop sort_by_key text
delivery_run = refl

handle_webhook_twice_example : delivery 30 (delivery 20 kiosk).1 ≡ (ok tt, (delivery 20 kiosk).1)
handle_webhook_twice_example =
    (handle_webhook_twice 20 30 7 (text "pi") true
      (ok (record { succeeded = Bool.true; amount_centavos = 0 }))
      (ok (record { succeeded = Bool.true; amount_centavos = 0 })) order_7 payment_7 kiosk
      (delivery 20 kiosk).1 refl refl refl delivery_run).1
