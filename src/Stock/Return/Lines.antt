-- ===== src/Stock/Return/Lines.antt =====
-- The whole return: it adds the demand of the lines, and undoes a deduction.
use zak_s_sizzling.Prelude.{ℕ, ◌+◌, ◌≡◌, arith, List, inr, inl}
use zak_s_sizzling.Prelude.Dict.{lookup}
use zak_s_sizzling.Prelude.Sort.{sort_by_key, lookup-sort_by_key, sort_by_key-NodupKeys}
use zak_s_sizzling.Store.{Db, Result-cases, ok}
use zak_s_sizzling.Stock.Needs.{StockLine, StockNeeds, compute_stock_needs}
use zak_s_sizzling.Stock.Needs.Demand.{
  unit_demand, material_demand, compute_stock_needs-demand, compute_stock_needs-NodupKeys,
}
use zak_s_sizzling.Stock.Deduct.{TouchedStock, unit_stock, order_lines, deduct_stock_for_order}
use zak_s_sizzling.Stock.Deduct.Covered.{material_stock}
use zak_s_sizzling.Stock.Deduct.Order.{deduct_stock_for_order-demand}
use zak_s_sizzling.Stock.Return.{
  ReturnLog, UnitTables, ReturnTables, return_units, return_materials, return_units_step,
  return_materials_step, return_stock_for_lines,
}
use zak_s_sizzling.Stock.Return.Loops.{unit_stock-return_units, material_stock-return_materials}

abbrev unit_tables : Db → UnitTables
unit_tables db = record { inventory = db.inventory; stock_adjustments = db.stock_adjustments }

abbrev return_tables : Db → ReturnTables
return_tables db = record { raw_materials = db.raw_materials; movements = db.movements }

-- What a successful call has done.
pub record Returned (lines : List StockLine) (log : ReturnLog) (db db' : Db) : Type 0 where
  pub needs : StockNeeds
  pub computed : compute_stock_needs lines ≡ ok needs
  pub units : UnitTables
  pub materials : ReturnTables
  pub unit_loop : return_units log (sort_by_key needs.units) (unit_tables db) ≡ ok units
  pub material_loop :
      return_materials log (sort_by_key needs.materials) (return_tables db) ≡ ok materials
  pub tables : db' ≡ record db {
    inventory = units.inventory;
    stock_adjustments = units.stock_adjustments;
    raw_materials = materials.raw_materials;
    movements = materials.movements;
  }

pub return_stock_for_lines-Returned :
    (lines : List StockLine) (log : ReturnLog) (db db' : Db) (t : TouchedStock)
    → return_stock_for_lines lines log db ≡ (ok t, db')
    → Returned lines log db db'
unfolding return_stock_for_lines return_units_step return_materials_step
return_stock_for_lines-Returned lines log db db' t r =
    elim (Result-cases (compute_stock_needs lines)) [
      | inr (x, e) ↦ ground arith
      | inl (n, e) ↦ elim (Result-cases (return_units log (sort_by_key n.units) (unit_tables db))) [
        | inr (x, u) ↦ ground arith
        | inl (us, u) ↦
            elim (Result-cases
              (return_materials log (sort_by_key n.materials) (return_tables db))) [
                | inr (x, m) ↦ ground arith
                | inl (ms, m) ↦ record {
                  needs = n;
                  computed = e;
                  units = us;
                  materials = ms;
                  unit_loop = u;
                  material_loop = m;
                  tables = ground arith;
                }
              ]
      ]
    ]

-- A successful return adds to every product the units of the lines, and to every raw material the
-- sum over the dishes that use it.
pub return_stock_for_lines-demand :
    (lines : List StockLine) (log : ReturnLog) (db db' : Db) (t : TouchedStock) (id : ℕ)
    → return_stock_for_lines lines log db ≡ (ok t, db')
    → (unit_stock (lookup id db'.inventory)
        ≡ unit_stock (lookup id db.inventory) + unit_demand id lines)
      × (material_stock (lookup id db'.raw_materials)
          ≡ material_stock (lookup id db.raw_materials) + material_demand id lines)
return_stock_for_lines-demand lines log db db' t id r =
    let d = return_stock_for_lines-Returned lines log db db' t r in
    let distinct = compute_stock_needs-NodupKeys lines d.needs d.computed in
    let n = d.needs in
    ground (
      arith,
      d.tables,
      compute_stock_needs-demand lines n id d.computed,
      lookup-sort_by_key id n.units distinct.0,
      lookup-sort_by_key id n.materials distinct.1,
      unit_stock-return_units log id (sort_by_key n.units) (unit_tables db) d.units
          (sort_by_key-NodupKeys n.units distinct.0) d.unit_loop,
      material_stock-return_materials log id (sort_by_key n.materials) (return_tables db)
          d.materials (sort_by_key-NodupKeys n.materials distinct.1) d.material_loop,
    )

-- Returning lines after an order was deducted brings each count and each raw material back to where
-- it was, where the lines, as they are when they are read again, need of it what the deducted lines
-- needed, and no other call has changed the stock in between.
pub return_stock_for_lines-deduct_stock_for_order :
    (order_id : ℕ) (lines : List StockLine) (log : ReturnLog) (db paid later back : Db)
    (t u : TouchedStock) (id : ℕ)
    → deduct_stock_for_order order_id db ≡ (ok t, paid)
    → later.inventory ≡ paid.inventory
    → later.raw_materials ≡ paid.raw_materials
    → unit_demand id lines ≡ unit_demand id (order_lines order_id db)
    → material_demand id lines ≡ material_demand id (order_lines order_id db)
    → return_stock_for_lines lines log later ≡ (ok u, back)
    → (unit_stock (lookup id back.inventory) ≡ unit_stock (lookup id db.inventory))
      × (material_stock (lookup id back.raw_materials)
          ≡ material_stock (lookup id db.raw_materials))
return_stock_for_lines-deduct_stock_for_order order_id lines log db paid later back t u id d i m n k
      r =
    ground (
      arith,
      deduct_stock_for_order-demand order_id db paid t id d,
      return_stock_for_lines-demand lines log later back u id r,
    )
