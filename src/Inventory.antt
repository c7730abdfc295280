-- ===== src/Inventory.antt =====
-- Manual stock changes (apps/api/src/modules/inventory/service.ts, and the reasons of its
-- schema.ts). The row is read before the transaction, so the transaction takes that earlier row
-- as an argument; the answer is the product's row with its counts.
pub mod Adjusted
use zak_s_sizzling.Prelude.{
  ℕ, ◌+◌, ◌-◌, Bool, true, false, not, ◌&&◌, ◌||◌, Option, none, some, List, [], ◌∷◌, ◌++◌, ◌==◌,
  ltb, leb, if◌then◌else◌, is_some, or_else,
}
use zak_s_sizzling.Prelude.Int.{ℤ, pos, pos_part, neg_part, sub_ℕ, is_negative}
use zak_s_sizzling.Prelude.Text.{Text, text, decimal}
use zak_s_sizzling.Prelude.Dict.{Dict, lookup, insert}
use zak_s_sizzling.Store.{
  Db, Product, Inventory, StockTracking, StockAdjustment, AdjustmentReason, inventory_updated,
  Error, http_error, record_not_found, Result, ok, err, Proc, pure, read, lift, or_throw, throw_if,
  emit, write, transaction, settle, continue, update_where, modify, ◌>>=◌, ◌>>◌,
}

pub record StockChange : Type 0 where
  pub set_qty : Option ℕ
  pub delta : Option ℤ
  pub min_stock_threshold : Option ℕ

-- `DECREASE_ONLY_REASONS.includes(reason)`
abbrev pub is_decrease_only : AdjustmentReason → Bool
is_decrease_only AdjustmentReason.damaged = true
is_decrease_only AdjustmentReason.spoilage = true
is_decrease_only _ = false

pub decrease_only_error : Error
decrease_only_error = http_error 400 (text "Damaged goods and spoilage can only lower the stock")

pub no_record_error : Error
no_record_error = http_error 404 (text "No inventory record for this product")

pub recipe_error : Error
recipe_error = http_error 409 (
    text
      "This dish uses a recipe, so its stock comes from its raw materials. Adjust those on the Raw materials page.")

pub not_enough_error : ℕ → Error
not_enough_error qty =
    http_error 409
      (text "Not enough stock for this change — only " ++ (decimal qty ++ text " left"))

-- Whether the change lowers the count that was read.
pub lowers : StockChange → ℕ → Bool
lowers c previous = elim c.set_qty [
  | some q ↦ ltb q previous
  | none ↦ elim c.delta [ none ↦ Bool.false | some d ↦ is_negative d ]
]

abbrev pub is_recipe : StockTracking → Bool
is_recipe StockTracking.recipe = true
is_recipe StockTracking.unit = false

-- The refusals before the transaction.
unfoldable pub check_change : StockChange → Bool → Product → ℕ → Result (Unit {0})
unfolding lowers
check_change c decrease_only p previous =
    if is_recipe p.tracking
    then err recipe_error
    else if decrease_only && not (lowers c previous)
    then err decrease_only_error
    else ok tt

abbrev pub set_count : ℕ → ℕ → Inventory → Inventory
set_count qty threshold r = record r { stock_qty = qty; min_stock_threshold = threshold }

abbrev pub add_delta : ℤ → Inventory → Inventory
add_delta d r = record r { stock_qty = r.stock_qty + pos_part d - neg_part d }

abbrev pub covers_delta : ℤ → Inventory → Bool
covers_delta d r = leb (neg_part d) r.stock_qty

abbrev pub set_threshold : Option ℕ → Inventory → Inventory
set_threshold none r = r
set_threshold (some t) r = record r { min_stock_threshold = t }

abbrev pub count_of : Option Inventory → ℕ
count_of none = 0
count_of (some r) = r.stock_qty

-- The count: an absolute one, or a conditional difference.
unfoldable pub change_count : ℕ → StockChange → Inventory → Proc (Unit {0})
unfolding not_enough_error
change_count id c seen db = elim c.set_qty [
  | some q ↦ (
    ok tt,
    record db {
      inventory =
          modify id (set_count q (or_else c.min_stock_threshold seen.min_stock_threshold))
            db.inventory;
    },
  )
  | none ↦
      let d = or_else c.delta (pos 0) in
      let (inv, done) = update_where id (covers_delta d) (add_delta d) db.inventory in
      (
        if done then ok tt else elim (lookup id inv) [
          | none ↦ err record_not_found
          | some r ↦ err (not_enough_error r.stock_qty)
        ],
        record db { inventory = modify id (set_threshold c.min_stock_threshold) inv },
      )
]

abbrev pub set_available : Bool → Product → Product
set_available b p = record p { is_available = b }

unfoldable pub update_available : ℕ → Proc ℕ
update_available id db = elim (lookup id db.inventory) [
  | none ↦ (err record_not_found, db)
  | some r ↦ (
    ok r.stock_qty,
    record db { products = modify id (set_available (ltb 0 r.stock_qty)) db.products },
  )
]

unfoldable pub apply_in_transaction : ℕ → StockChange → Inventory → Proc ℕ
unfolding change_count update_available
apply_in_transaction id c seen = do change_count id c seen; update_available id

pub record StockResult : Type 0 where
  pub previous_qty : ℕ
  pub new_qty : ℕ

-- From the row that was read on.
unfoldable pub apply_from : ℕ → StockChange → Bool → Product → Inventory → Proc StockResult
unfolding check_change apply_in_transaction
apply_from id c decrease_only p seen = do
  (λ db. (check_change c decrease_only p seen.stock_qty, db))
  new_qty ← transaction (apply_in_transaction id c seen)
  emit (inventory_updated id (ltb 0 new_qty) new_qty)
  pure (record { previous_qty = seen.stock_qty; new_qty = new_qty })

unfoldable pub apply_stock_change : ℕ → StockChange → Bool → Proc StockResult
unfolding no_record_error
apply_stock_change id c decrease_only = do
  seen ← (λ db. or_throw (lookup id db.inventory) no_record_error db)
  p ← (λ db. or_throw (lookup id db.products) no_record_error db)
  apply_from id c decrease_only p seen

pub reason_error : Error
reason_error = http_error 400 (text "A reason is required when adjusting stock quantity")

abbrev pub qty_changed : StockChange → Bool
qty_changed c = is_some c.set_qty || is_some c.delta

abbrev is_decrease : Option AdjustmentReason → Bool
is_decrease none = false
is_decrease (some r) = is_decrease_only r

-- `note || null`
abbrev pub note_or_null : Option Text → Option Text
note_or_null none = none
note_or_null (some []) = none
note_or_null (some (c ∷ cs)) = some (c ∷ cs)

pub adjustment : ℕ → StockResult → AdjustmentReason → Option Text → ℕ → StockAdjustment
adjustment id r reason note_text by = record {
  product_id = id;
  delta = sub_ℕ r.new_qty r.previous_qty;
  previous_qty = r.previous_qty;
  new_qty = r.new_qty;
  reason = reason;
  note = note_or_null note_text;
  adjusted_by_id = by;
}

abbrev log_row :
    ℕ → StockResult → Bool → Option AdjustmentReason → Option Text → ℕ → List StockAdjustment
log_row id r changed none t by = []
log_row id r changed (some reason) t by = if changed then adjustment id r reason t by ∷ [] else []

pub log_adjustment :
    ℕ → StockResult → Bool → Option AdjustmentReason → Option Text → ℕ → Proc StockResult
unfolding adjustment
log_adjustment id r changed reason t by db = (
  ok r,
  record db { stock_adjustments = db.stock_adjustments ++ log_row id r changed reason t by },
)

pub adjust_stock : ℕ → StockChange → Option AdjustmentReason → Option Text → ℕ → Proc StockResult
unfolding apply_stock_change log_adjustment
adjust_stock id c reason t by = do
  throw_if (qty_changed c && not (is_some reason)) reason_error
  r ← apply_stock_change id c (qty_changed c && is_decrease reason)
  log_adjustment id r (qty_changed c) reason t by

-- The unit products with a count at or under their threshold.
abbrev pub is_low : Option Inventory → Bool
is_low none = false
is_low (some r) = leb r.stock_qty r.min_stock_threshold

pub list_low_stock : Dict Inventory → Dict Product → List ℕ
list_low_stock inv [] = []
list_low_stock inv ((id, p) ∷ ps) =
    let rest = list_low_stock inv ps in
    if not (is_recipe p.tracking) && is_low (lookup id inv) then id ∷ rest else rest
