-- ===== src/Orders/PrepTime/Queue.antt =====
-- Orders in the kitchen, and the estimate that an order gets when it arrives there.
use zak_s_sizzling.Prelude.{ℕ, ◌≡◌, refl, some}
use zak_s_sizzling.Store.{Db, ok, modify}
use zak_s_sizzling.Orders.PrepTime.{
  estimate_prep_minutes, prep_lines, count_orders_in_kitchen, set_estimate,
  set_estimate_on_reaching_kitchen,
}

-- The minutes that an order is given: its own dishes behind the other orders in the kitchen.
abbrev pub order_minutes : ℕ → Db → ℕ
order_minutes order_id db =
    estimate_prep_minutes (prep_lines order_id db.products db.order_items)
      (count_orders_in_kitchen (some order_id) db)

pub set_estimate_on_reaching_kitchen_lem :
    (now order_id : ℕ) (db : Db)
    → set_estimate_on_reaching_kitchen now order_id db ≡ (
      ok tt,
      record db {
        orders = modify order_id (set_estimate now (order_minutes order_id db)) db.orders;
      },
    )
unfolding set_estimate_on_reaching_kitchen
set_estimate_on_reaching_kitchen_lem now order_id db = refl
