-- ===== src/Tests/Orders.antt =====
-- Sample orders and estimates.
use zak_s_sizzling.Orders.Create.Placed.{
  ItemRows, WithDue, price_of, Available, create_order-placed,
}
use zak_s_sizzling.Prelude.Dict.{insert, lookup}
use zak_s_sizzling.Orders.Attention.Settled.{refunded_row, mark_attention_sorted_out_lem}
use zak_s_sizzling.Payments.Confirm.{is_cancelled, paid_row}
use zak_s_sizzling.Orders.Attention.{
  Resolution, check_resolution, clear_note, mark_attention_sorted_out, record_refund, sort_out,
  sorted_out,
}
use zak_s_sizzling.Orders.Cancel.{cancel_order, cancel_pending}
use zak_s_sizzling.Orders.Create.{
  Draw, ItemLine, OrderInput, check_items, create_order, insert_items, new_order, new_order_line,
  number_taken, payment_method_of, place, place_lines, try_numbers,
}
use zak_s_sizzling.Orders.Dto.{get_order_by_id}
use zak_s_sizzling.Prelude.{
  All, ◌≡◌, ◌+◌, refl, Bool, true, false, none, some, List, [], ◌∷◌, ◌++◌, ◌&&◌, map,
}
use zak_s_sizzling.Prelude.Text.{text}
use zak_s_sizzling.Stock.Deduct.{recipe_lines, stock_line}
use zak_s_sizzling.Stock.Deduct.Order.{Covers}
use zak_s_sizzling.Stock.Needs.{
  add_material, add_materials, add_unit, compute_stock_needs, find_shortages, needs_from,
  short_materials, short_units,
}
use zak_s_sizzling.Stock.Needs.Demand.{IsMakeable}
use zak_s_sizzling.Stock.NewOrder.{
  all_recipe_lines, assert_stock_for_new_order, material_map, new_order_shortages, stock_line_of,
  unit_map,
}
use zak_s_sizzling.Store.{Db, Order, OrderStatus, PaymentMethod, ok, orders_changed}
use zak_s_sizzling.Tests.Sample.{cooking, kiosk, order_7}

abbrev pub draw : Draw
draw = record {
  now = 1;
  configured = Bool.true;
  order_id = 7;
  item_id = λ n. 70 + n;
  number = λ n. text "ZK-A";
}

abbrev pub request : OrderInput
request = record {
  items =
      record { product_id = 1; qty = 2; special_instructions = none }
      ∷ record { product_id = 2; qty = 2; special_instructions = none }
      ∷ [];
  customer_name = none;
  kiosk_session_id = none;
  payment_method = some PaymentMethod.qrph;
  order_type = none;
}

abbrev pub open_shop : Db
open_shop = record kiosk { orders = []; order_items = []; payments = [] }

abbrev pub placed_db : Db
placed_db = (create_order draw request open_shop).1

pub placed_run : create_order draw request open_shop ≡ (ok (get_order_by_id 7 placed_db), placed_db)
unfolding create_order check_items place_lines try_numbers number_taken new_order place insert_items
    payment_method_of new_order_line assert_stock_for_new_order new_order_shortages unit_map
    material_map all_recipe_lines find_shortages short_units short_materials compute_stock_needs
    needs_from add_unit add_material add_materials stock_line recipe_lines text
placed_run = refl

create_order-placed_example :
    (ls : List ItemLine) × (o : Order) × Available open_shop.products request.items ls
    × All IsMakeable (map stock_line_of (map (new_order_line open_shop) ls))
    × Covers open_shop (map stock_line_of (map (new_order_line open_shop) ls))
    × (number_taken o.order_number open_shop.orders ≡ false)
    × (o.status ≡ OrderStatus.pending)
    × (o.stock_issue ≡ false)
    × (o.total_amount ≡ price_of ls)
    × ItemRows draw 0 ls open_shop.order_items placed_db.order_items
    × WithDue 7 o (some PaymentMethod.qrph) open_shop.payments placed_db.payments
    × (placed_db ≡ record open_shop {
      orders = insert 7 o open_shop.orders;
      order_items = placed_db.order_items;
      payments = placed_db.payments;
      events = [] ++ orders_changed ∷ [];
    })
create_order-placed_example =
    create_order-placed draw request open_shop placed_db (get_order_by_id 7 placed_db) placed_run

abbrev pub cancelled_db : Db
cancelled_db = (cancel_order 30 7 kiosk).1

pub cancelled_run : cancel_order 30 7 kiosk ≡ (ok (get_order_by_id 7 cancelled_db), cancelled_db)
unfolding cancel_order cancel_pending
cancelled_run = refl

-- A paid order that the kitchen cancelled.
abbrev flagged_order : Order
flagged_order = record order_7 {
  status = OrderStatus.cancelled;
  stock_issue = Bool.true;
  stock_issue_note = some (1 ∷ []);
}

abbrev flagged_db : Db
flagged_db = record (cooking OrderStatus.cancelled) { orders = (7, flagged_order) ∷ [] }

abbrev settled_db : Db
settled_db =
    (mark_attention_sorted_out 50 7 (some (1 ∷ [])) (some Resolution.refunded) flagged_db).1

settled_run :
    mark_attention_sorted_out 50 7 (some (1 ∷ [])) (some Resolution.refunded) flagged_db
    ≡ (ok (get_order_by_id 7 settled_db), settled_db)
unfolding mark_attention_sorted_out sort_out check_resolution clear_note record_refund sorted_out
settled_run = refl

mark_attention_sorted_out_lem_example :
    (o : Order) × (o' : Order) × (lookup 7 flagged_db.orders ≡ some o)
    × (o.stock_issue ≡ true)
    × (o.stock_issue_note ≡ some (1 ∷ []))
    × (is_cancelled o.status && (paid_row (lookup 7 flagged_db.payments) && false) ≡ false)
    × (lookup 7 settled_db.orders ≡ some o')
    × (o'.stock_issue ≡ false)
    × (o' ≡ record o { stock_issue = false; stock_issue_note = o'.stock_issue_note })
    × (lookup 7 settled_db.payments
        ≡ refunded_row 50
            (is_cancelled o.status && (paid_row (lookup 7 flagged_db.payments) && true))
            (lookup 7 flagged_db.payments))
    × (settled_db ≡ record flagged_db {
      orders = settled_db.orders;
      payments = settled_db.payments;
      events = settled_db.events;
    })
mark_attention_sorted_out_lem_example =
    mark_attention_sorted_out_lem 50 7 (some (1 ∷ [])) (some Resolution.refunded) flagged_db
      settled_db (get_order_by_id 7 settled_db) 7 settled_run
