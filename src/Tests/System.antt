-- ===== src/Tests/System.antt =====
-- Sample histories.
use zak_s_sizzling.Stock.Refresh.{is_touched, refresh_product, refresh_availability, refresh_loop}
use zak_s_sizzling.System.{here, next, step_create, step_counter}
use zak_s_sizzling.Kitchen.{create_kitchen_tasks_for_order, create_tasks, insert_tasks}
use zak_s_sizzling.Kitchen.Status.{sold_row}
use zak_s_sizzling.Orders.Cancel.{cancel_order}
use zak_s_sizzling.Orders.Create.{
  check_items, create_order, insert_items, new_order, new_order_line, number_taken,
  payment_method_of, place, place_lines, try_numbers,
}
use zak_s_sizzling.Orders.Dto.{get_order_by_id}
use zak_s_sizzling.Orders.PrepTime.{set_estimate_on_reaching_kitchen}
use zak_s_sizzling.Payments.Confirm.{
  announce_paid_order, confirm_counter_snapshot, confirm_pending_order, fulfil,
  mark_payment_paid_if_not_already, paid_row, pay_and_fulfil, load_payable_order,
}
use zak_s_sizzling.Prelude.Dict.{lookup}
use zak_s_sizzling.Prelude.Sort.{sort_by_key}
use zak_s_sizzling.Prelude.Text.{text}
use zak_s_sizzling.Stock.Deduct.{
  deduct_material, deduct_materials, deduct_needs, deduct_stock_for_order, deduct_units, item_rows,
  items_of, order_lines, recipe_lines, stock_line, stock_lines,
}
use zak_s_sizzling.Stock.Needs.{
  add_material, add_materials, add_unit, compute_stock_needs, find_shortages, needs_from,
  short_materials, short_units,
}
use zak_s_sizzling.Stock.NewOrder.{
  all_recipe_lines, assert_stock_for_new_order, material_map, new_order_shortages, unit_map,
}
use zak_s_sizzling.Store.{
  Db, Error, err, Order, OrderStatus, Payment, PaymentStatus, PaymentMethod, ok,
}
use zak_s_sizzling.System.PaidFor.{Reachable-PaidFor}
use zak_s_sizzling.Payments.QrPh.{QrPhCode, create_qrph_payment}
use zak_s_sizzling.Prelude.{some, none, ◌≡◌, refl, true}
use zak_s_sizzling.System.Race.{
  create_qrph_payment-confirm_counter_snapshot, cancel_order-confirm_counter_snapshot,
  confirm_counter_snapshot-cancel_order,
}
use zak_s_sizzling.Tests.Sample.{kiosk, read_7}
use zak_s_sizzling.Tests.Payments.{paid_db, confirm_run}
use zak_s_sizzling.Tests.Orders.{draw, request, open_shop, cancelled_db, cancelled_run}

cancel_order-confirm_counter_snapshot_example :
    (e : Error) × (confirm_counter_snapshot 40 read_7 cancelled_db ≡ (err e, cancelled_db))
cancel_order-confirm_counter_snapshot_example =
    cancel_order-confirm_counter_snapshot 30 40 read_7 kiosk cancelled_db
      (get_order_by_id 7 cancelled_db) cancelled_run

confirm_counter_snapshot-cancel_order_example :
    (e : Error) × (cancel_order 40 7 paid_db ≡ (err e, paid_db))
confirm_counter_snapshot-cancel_order_example =
    confirm_counter_snapshot-cancel_order 20 40 read_7 kiosk paid_db (get_order_by_id 7 paid_db)
      confirm_run

-- The order is placed, then paid at the counter.
abbrev history : Db
history = (confirm_counter_snapshot 20 read_7 (create_order draw request open_shop).1).1

history_run : sold_row (lookup 7 history.orders) ≡ true
unfolding create_order check_items place_lines try_numbers number_taken new_order place insert_items
    payment_method_of new_order_line assert_stock_for_new_order new_order_shortages unit_map
    material_map all_recipe_lines find_shortages short_units short_materials compute_stock_needs
    needs_from add_unit add_material add_materials stock_line recipe_lines text
    confirm_counter_snapshot pay_and_fulfil mark_payment_paid_if_not_already fulfil
    confirm_pending_order announce_paid_order deduct_stock_for_order deduct_needs deduct_units
    deduct_materials deduct_material order_lines stock_lines items_of item_rows
    create_kitchen_tasks_for_order insert_tasks create_tasks set_estimate_on_reaching_kitchen
    refresh_availability refresh_loop is_touched refresh_product sort_by_key
history_run = refl

Reachable-PaidFor_example : paid_row (lookup 7 history.payments) ≡ true
Reachable-PaidFor_example =
    Reachable-PaidFor open_shop history 7 refl
      (next (next here (step_create draw request open_shop refl))
        (step_counter 20 read_7 (create_order draw request open_shop).1))
      history_run

abbrev code : QrPhCode
code = record {
  payment_intent_id = text "pi2";
  image_url = text "data:";
  expires_at = 600;
  test_url = none;
}

payable : load_payable_order 7 kiosk ≡ ok read_7
unfolding load_payable_order
payable = refl

create_qrph_payment-confirm_counter_snapshot_example :
    let last =
      (create_qrph_payment true
        (ok code)
        (λ d. (confirm_counter_snapshot 20 read_7 d).1)
        7
        kiosk).1 in
    (o : Order) × (p : Payment) × (lookup 7 last.orders ≡ some o)
    × (o.status ≡ OrderStatus.confirmed)
    × (lookup 7 last.payments ≡ some p)
    × (p.status ≡ PaymentStatus.pending)
    × (p.method ≡ PaymentMethod.qrph)
    × (p.reference ≡ some (text "pi2"))
create_qrph_payment-confirm_counter_snapshot_example =
    create_qrph_payment-confirm_counter_snapshot 20 7 code read_7 kiosk paid_db
      (get_order_by_id 7 paid_db) payable confirm_run
