-- ===== src/Stock/Return.antt =====
-- Putting back the stock of dishes that were never made: `returnStockForLines` of
-- apps/api/src/modules/inventory/fulfillment.ts.
pub mod Loops
pub mod Lines
use zak_s_sizzling.Prelude.{ℕ, ◌+◌, ◌-◌, Option, none, some, List, [], ◌∷◌, ◌++◌}
use zak_s_sizzling.Prelude.Int.{pos}
use zak_s_sizzling.Prelude.Text.{Text}
use zak_s_sizzling.Prelude.Dict.{Dict, lookup, insert, keys}
use zak_s_sizzling.Prelude.Sort.{sort_by_key}
use zak_s_sizzling.Store.{
  record_not_found, Result, ok, err, Db, Inventory, RawMaterial, Movement, MovementType,
  AdjustmentReason, StockAdjustment, Proc, pure, ◌>>=◌, ◌>>◌,
}
use zak_s_sizzling.Stock.Needs.{StockLine, UnitNeed, MaterialNeed, StockNeeds, compute_stock_needs}
use zak_s_sizzling.Stock.Deduct.{TouchedStock}

pub record ReturnLog : Type 0 where
  pub order_id : ℕ
  pub user_id : ℕ
  pub note : Text

abbrev pub add_stock : ℕ → Inventory → Inventory
add_stock qty r = record r { stock_qty = r.stock_qty + qty }

-- The log row of a returned product, from the count after the increment.
pub adjustment_row : ReturnLog → ℕ → ℕ → ℕ → StockAdjustment
adjustment_row log id qty after = record {
  product_id = id;
  delta = pos qty;
  previous_qty = after - qty;
  new_qty = after;
  reason = AdjustmentReason.return;
  note = some log.note;
  adjusted_by_id = log.user_id;
}

pub record UnitTables : Type 0 where
  pub inventory : Dict Inventory
  pub stock_adjustments : List StockAdjustment

unfoldable pub return_units : ReturnLog → Dict UnitNeed → UnitTables → Result UnitTables
unfolding adjustment_row
return_units log [] t = ok t
return_units log ((id, need) ∷ needs) t = elim (lookup id t.inventory) [
  | none ↦ err record_not_found
  | some r ↦ return_units log needs (record {
    inventory = insert id (add_stock need.qty r) t.inventory;
    stock_adjustments =
        t.stock_adjustments ++ adjustment_row log id need.qty (r.stock_qty + need.qty) ∷ [];
  })
]

abbrev pub add_material_stock : ℕ → RawMaterial → RawMaterial
add_material_stock qty m = record m { stock_qty = m.stock_qty + qty }

pub movement_row : ReturnLog → ℕ → ℕ → ℕ → Movement
movement_row log id qty after = record {
  raw_material_id = id;
  delta = pos qty;
  previous_qty = after - qty;
  new_qty = after;
  type = MovementType.adjustment;
  reason = some AdjustmentReason.return;
  order_id = some log.order_id;
  adjusted_by_id = some log.user_id;
  note = some log.note;
}

pub record ReturnTables : Type 0 where
  pub raw_materials : Dict RawMaterial
  pub movements : List Movement

unfoldable pub return_materials : ReturnLog → Dict MaterialNeed → ReturnTables → Result ReturnTables
unfolding movement_row
return_materials log [] t = ok t
return_materials log ((id, need) ∷ needs) t = elim (lookup id t.raw_materials) [
  | none ↦ err record_not_found
  | some m ↦ return_materials log needs (record {
    raw_materials = insert id (add_material_stock need.qty m) t.raw_materials;
    movements = t.movements ++ movement_row log id need.qty (m.stock_qty + need.qty) ∷ [];
  })
]

unfoldable pub return_units_step : ReturnLog → StockNeeds → Proc (Unit {0})
return_units_step log needs db =
    let start : UnitTables = record {
      inventory = db.inventory;
      stock_adjustments = db.stock_adjustments;
    } in
    elim (return_units log (sort_by_key needs.units) start) [
      | err e ↦ (err e, db)
      | ok t ↦
          (ok tt, record db { inventory = t.inventory; stock_adjustments = t.stock_adjustments })
    ]

unfoldable pub return_materials_step : ReturnLog → StockNeeds → Proc (Unit {0})
return_materials_step log needs db =
    let start : ReturnTables = record {
      raw_materials = db.raw_materials;
      movements = db.movements;
    } in
    elim (return_materials log (sort_by_key needs.materials) start) [
      | err e ↦ (err e, db)
      | ok t ↦ (ok tt, record db { raw_materials = t.raw_materials; movements = t.movements })
    ]

unfoldable pub return_stock_for_lines : List StockLine → ReturnLog → Proc TouchedStock
unfolding return_units_step return_materials_step
return_stock_for_lines lines log = do
  needs ← (λ db. (compute_stock_needs lines, db))
  return_units_step log needs
  return_materials_step log needs
  pure (record { product_ids = keys needs.units; material_ids = keys needs.materials })
