-- ===== src/Orders/PrepTime.antt =====
-- Estimated preparation times (apps/api/src/modules/orders/prepTime.ts). Quantities and minutes are
-- natural numbers, as the request's schema and the database's rules have them.
pub mod Estimate
pub mod Queue
use zak_s_sizzling.Prelude.{
  ℕ, ◌+◌, ◌*◌, ◌-◌, max, Bool, true, false, not, ◌&&◌, Option, none, some, List, [], ◌∷◌, ◌==◌, ltb,
  if◌then◌else◌, keep, is_some, any, map, length, String,
}
use zak_s_sizzling.Prelude.Text.{text}
use zak_s_sizzling.Prelude.Dict.{Dict, lookup, insert}
use zak_s_sizzling.Store.{
  Db, Order, OrderItem, OrderStatus, Product, KitchenTask, KitchenStatus, Proc, Result, ok, err,
  Error, http_error, modify, throw_if, lift, pure, ◌>>=◌, ◌>>◌,
}

abbrev pub extra_serving_minutes : ℕ
extra_serving_minutes = 1

abbrev pub order_ahead_minutes : ℕ
order_ahead_minutes = 2

pub record PrepLine : Type 0 where
  pub prep_minutes : ℕ
  pub qty : ℕ

abbrev pub is_cooked : PrepLine → Bool
is_cooked l = ltb 0 l.prep_minutes && ltb 0 l.qty

-- `Math.max(...cooked.map((line) => line.prepMinutes))`
abbrev pub longest : List PrepLine → ℕ
longest [] = 0
longest (l ∷ ls) = max l.prep_minutes (longest ls)

abbrev pub servings : List PrepLine → ℕ
servings [] = 0
servings (l ∷ ls) = l.qty + servings ls

abbrev pub estimate_cooked : List PrepLine → ℕ → ℕ
estimate_cooked [] orders_ahead = 0
estimate_cooked (l ∷ ls) orders_ahead =
    longest (l ∷ ls)
    + extra_serving_minutes * (servings (l ∷ ls) - 1)
    + order_ahead_minutes * orders_ahead

unfoldable pub estimate_prep_minutes : List PrepLine → ℕ → ℕ
estimate_prep_minutes lines orders_ahead = estimate_cooked (keep is_cooked lines) orders_ahead

-- `kitchenTask: { status: { not: "completed" } }`: an item with a task that is not done.
abbrev pub is_unfinished : Option KitchenTask → Bool
is_unfinished none = false
is_unfinished (some t) = elim t.status [ KitchenStatus.completed ↦ false | _ ↦ true ]

abbrev pub is_cancelled : OrderStatus → Bool
is_cancelled OrderStatus.cancelled = true
is_cancelled _ = false

-- `items: { some: … }`
unfoldable pub has_unfinished : ℕ → Dict OrderItem → Dict KitchenTask → Bool
has_unfinished order_id [] tasks = false
has_unfinished order_id ((id, i) ∷ is) tasks =
    if i.order_id == order_id && is_unfinished (lookup id tasks)
    then true
    else has_unfinished order_id is tasks

abbrev is_excluded : Option ℕ → ℕ → Bool
is_excluded none id = false
is_excluded (some x) id = x == id

unfoldable pub in_kitchen : Option ℕ → Db → ℕ → Order → Bool
in_kitchen exclude db id o =
    not (is_excluded exclude id)
    && (not (is_cancelled o.status) && has_unfinished id db.order_items db.kitchen_tasks)

unfoldable pub count_where : (ℕ → Order → Bool) → Dict Order → ℕ
count_where p [] = 0
count_where p ((id, o) ∷ os) = (if p id o then 1 else 0) + count_where p os

unfoldable pub count_orders_in_kitchen : Option ℕ → Db → ℕ
unfolding count_where in_kitchen
count_orders_in_kitchen exclude db = count_where (in_kitchen exclude db) db.orders

-- The items of an order with their products' times.
unfoldable pub prep_lines : ℕ → Dict Product → Dict OrderItem → List PrepLine
prep_lines order_id ps [] = []
prep_lines order_id ps ((id, i) ∷ is) =
    let rest = prep_lines order_id ps is in
    if i.order_id == order_id
    then elim (lookup i.product_id ps) [
      | none ↦ rest
      | some p ↦ record { prep_minutes = p.prep_minutes; qty = i.qty } ∷ rest
    ]
    else rest

abbrev pub set_estimate : ℕ → ℕ → Order → Order
set_estimate now minutes o = record o {
  estimated_prep_minutes = some minutes;
  estimated_ready_at = some (now + minutes * 60000);
}

unfoldable pub set_estimate_on_reaching_kitchen : ℕ → ℕ → Proc (Unit {0})
unfolding prep_lines count_orders_in_kitchen
set_estimate_on_reaching_kitchen now order_id db =
    let minutes =
      estimate_prep_minutes (prep_lines order_id db.products db.order_items)
        (count_orders_in_kitchen (some order_id) db) in
    (ok tt, record db { orders = modify order_id (set_estimate now minutes) db.orders })

pub record CartItem : Type 0 where
  pub product_id : ℕ
  pub qty : ℕ

pub record PrepEstimate : Type 0 where
  pub estimated_prep_minutes : ℕ
  pub orders_ahead : ℕ

-- The items with their products' times, if every product is there.
pub cart_lines : Dict Product → List CartItem → Option (List PrepLine)
cart_lines ps [] = some []
cart_lines ps (i ∷ is) = elim (lookup i.product_id ps) [
  | none ↦ none
  | some p ↦ elim (cart_lines ps is) [
    | none ↦ none
    | some ls ↦ some (record { prep_minutes = p.prep_minutes; qty = i.qty } ∷ ls)
  ]
]

pub product_missing : Error
product_missing = http_error 404 (text "One of the products in the order doesn't exist")

pub estimate_for_cart : List CartItem → Db → Result PrepEstimate
unfolding cart_lines
estimate_for_cart items db = elim (cart_lines db.products items) [
  | none ↦ err product_missing
  | some lines ↦
      let ahead = count_orders_in_kitchen none db in
      ok (record {
        estimated_prep_minutes = estimate_prep_minutes lines ahead;
        orders_ahead = ahead;
      })
]
