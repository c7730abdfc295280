-- ===== src/Tests/Stock.antt =====
-- Sample stock checks, deductions and returns.
use zak_s_sizzling.Stock.Needs.{
  least_servings, StockLine, StockNeeds, add_material, add_materials, add_unit, compute_stock_needs,
  find_shortages, material_qty, needs_from, servings_available, short_materials, short_units,
  unit_qty,
}
use zak_s_sizzling.Stock.Needs.Shortages.{Takes, Makes}
use zak_s_sizzling.Stock.Refresh.{
  is_touched, product_stock, refresh_loop, refresh_product, refresh_availability,
}
use zak_s_sizzling.Stock.Refresh.Availability.{refresh_availability-Makes}
use zak_s_sizzling.Tests.Sample.{rice, tapsilog, kiosk}
use zak_s_sizzling.Prelude.{
  All, ℕ, ◌≡◌, ◌↔◌, ◌≢◌, refl, Bool, true, false, none, some, List, [], ◌∷◌, ◌++◌, arith, map,
}
use zak_s_sizzling.Prelude.Dict.{lookup}
use zak_s_sizzling.Prelude.Sort.{sort_by_key}
use zak_s_sizzling.Prelude.Text.{text}
use zak_s_sizzling.Stock.Deduct.{
  TouchedStock, deduct_material, deduct_materials, deduct_needs, deduct_stock_for_order,
  deduct_units, item_rows, items_of, order_lines, recipe_lines, stock_line, stock_lines, unit_stock,
}
use zak_s_sizzling.Stock.Deduct.Covered.{material_stock}
use zak_s_sizzling.Stock.Deduct.Ledger.{
  IsBalanced, IsSaleOf, deduct_stock_for_order-outgoing, outgoing,
}
use zak_s_sizzling.Stock.Deduct.Order.{Covers, deduct_stock_for_order-Covers}
use zak_s_sizzling.Stock.Needs.Demand.{
  IsMakeable, compute_stock_needs-demand, material_demand, unit_demand,
}
use zak_s_sizzling.Stock.Needs.Entries.{Ordered}
use zak_s_sizzling.Stock.NewOrder.{
  NewOrderLine, all_recipe_lines, assert_stock_for_new_order, material_map, new_order_shortages,
  stock_line_of, unit_map,
}
use zak_s_sizzling.Stock.NewOrder.Precheck.{assert_stock_for_new_order-Covers}
use zak_s_sizzling.Stock.Return.{
  ReturnLog, return_materials, return_materials_step, return_stock_for_lines, return_units,
  return_units_step,
}
use zak_s_sizzling.Stock.Return.Lines.{return_stock_for_lines-deduct_stock_for_order}
use zak_s_sizzling.Store.{Db, MaterialUnit, Movement, StockTracking, ok}

abbrev pub taken_db : Db
taken_db = (deduct_stock_for_order 7 kiosk).1

abbrev both : TouchedStock
both = record { product_ids = 1 ∷ []; material_ids = 1 ∷ [] }

pub taken_run : deduct_stock_for_order 7 kiosk ≡ (ok both, taken_db)
unfolding deduct_stock_for_order deduct_needs deduct_units deduct_materials deduct_material
    compute_stock_needs needs_from add_unit add_material add_materials order_lines stock_lines
    stock_line recipe_lines items_of item_rows sort_by_key
taken_run = refl

deduct_stock_for_order-outgoing_example :
    (rows : List Movement) × (taken_db.movements ≡ [] ++ rows)
    × All IsBalanced rows
    × All (IsSaleOf 7) rows
    × ((id : ℕ) → outgoing id rows ≡ material_demand id (order_lines 7 kiosk))
deduct_stock_for_order-outgoing_example =
    deduct_stock_for_order-outgoing 7 kiosk taken_db both taken_run

kiosk-Ordered : Ordered (order_lines 7 kiosk)
unfolding deduct_stock_for_order deduct_needs deduct_units deduct_materials deduct_material
    compute_stock_needs needs_from add_unit add_material add_materials order_lines stock_lines
    stock_line recipe_lines items_of item_rows sort_by_key
kiosk-Ordered = (omega arith, (omega arith, tt))

deduct_stock_for_order-Covers_example :
    ((t : TouchedStock) × (db' : Db) × (deduct_stock_for_order 7 kiosk ≡ (ok t, db')))
    ↔ (All IsMakeable (order_lines 7 kiosk) × Covers kiosk (order_lines 7 kiosk))
deduct_stock_for_order-Covers_example = deduct_stock_for_order-Covers 7 kiosk kiosk-Ordered

-- Read again after the deduction.
abbrev lines : List StockLine
lines = order_lines 7 taken_db

abbrev log : ReturnLog
log = record { order_id = 7; user_id = 3; note = text "cancelled" }

abbrev back : Db
back = (return_stock_for_lines lines log taken_db).1

same_units : unit_demand 1 lines ≡ unit_demand 1 (order_lines 7 kiosk)
unfolding deduct_stock_for_order deduct_needs deduct_units deduct_materials deduct_material
    compute_stock_needs needs_from add_unit add_material add_materials order_lines stock_lines
    stock_line recipe_lines items_of item_rows sort_by_key
same_units = refl

same_materials : material_demand 1 lines ≡ material_demand 1 (order_lines 7 kiosk)
unfolding deduct_stock_for_order deduct_needs deduct_units deduct_materials deduct_material
    compute_stock_needs needs_from add_unit add_material add_materials order_lines stock_lines
    stock_line recipe_lines items_of item_rows sort_by_key
same_materials = refl

back_run : return_stock_for_lines lines log taken_db ≡ (ok both, back)
unfolding return_stock_for_lines return_units_step return_materials_step return_units
    return_materials deduct_stock_for_order deduct_needs deduct_units deduct_materials
    deduct_material compute_stock_needs needs_from add_unit add_material add_materials order_lines
    stock_lines stock_line recipe_lines items_of item_rows sort_by_key
back_run = refl

return_stock_for_lines-deduct_stock_for_order_example :
    (unit_stock (lookup 1 back.inventory) ≡ 10)
    × (material_stock (lookup 1 back.raw_materials) ≡ 2000)
return_stock_for_lines-deduct_stock_for_order_example =
    return_stock_for_lines-deduct_stock_for_order 7 lines log kiosk taken_db taken_db back both both
      1 taken_run refl refl same_units same_materials back_run

abbrev sisig_line : StockLine
sisig_line = record {
  qty = 2;
  product_id = 1;
  product_name = text "Sisig";
  tracking = StockTracking.unit;
  recipe_items = [];
}

abbrev tapsilog_line : StockLine
tapsilog_line = record {
  qty = 2;
  product_id = 2;
  product_name = text "Tapsilog";
  tracking = StockTracking.recipe;
  recipe_items =
      record {
        raw_material_id = 1;
        qty_per_serving = 200;
        material_name = text "Rice";
        material_unit = MaterialUnit.g;
        material_stock = 2000;
      }
      ∷ [];
}

abbrev cart : List NewOrderLine
cart =
    record { line = sisig_line; inventory = some 10 }
    ∷ record { line = tapsilog_line; inventory = none }
    ∷ []

cart_run : assert_stock_for_new_order cart ≡ ok tt
unfolding assert_stock_for_new_order new_order_shortages unit_map material_map all_recipe_lines
    find_shortages short_units short_materials deduct_stock_for_order deduct_needs deduct_units
    deduct_materials deduct_material compute_stock_needs needs_from add_unit add_material
    add_materials order_lines stock_lines stock_line recipe_lines items_of item_rows sort_by_key
cart_run = refl

assert_stock_for_new_order-Covers_example :
    All IsMakeable (map stock_line_of cart) × Covers kiosk (map stock_line_of cart)
assert_stock_for_new_order-Covers_example =
    assert_stock_for_new_order-Covers kiosk cart ((refl, tt), ((refl, (refl, tt)), tt)) cart_run

abbrev needs : StockNeeds
needs = record {
  units = (1, record { name = text "Sisig"; qty = 2 }) ∷ [];
  materials = (1, record { name = text "Rice"; unit = MaterialUnit.g; qty = 400 }) ∷ [];
}

needs_run : compute_stock_needs (sisig_line ∷ tapsilog_line ∷ []) ≡ ok needs
unfolding deduct_stock_for_order deduct_needs deduct_units deduct_materials deduct_material
    compute_stock_needs needs_from add_unit add_material add_materials order_lines stock_lines
    stock_line recipe_lines items_of item_rows sort_by_key
needs_run = refl

compute_stock_needs-demand_example :
    (unit_qty (lookup 1 needs.units) ≡ unit_demand 1 (sisig_line ∷ tapsilog_line ∷ []))
    × (material_qty (lookup 1 needs.materials)
        ≡ material_demand 1 (sisig_line ∷ tapsilog_line ∷ []))
compute_stock_needs-demand_example =
    compute_stock_needs-demand (sisig_line ∷ tapsilog_line ∷ []) needs 1 needs_run

-- No sisig and no rice is left.
abbrev empty_db : Db
empty_db = record kiosk {
  inventory = [];
  raw_materials = (1, record rice { stock_qty = 100 }) ∷ [];
}

touched_run : is_touched both 2 tapsilog ≡ true
unfolding is_touched
touched_run = refl

rice_run : recipe_lines empty_db.raw_materials tapsilog.recipe_items ≢ []
unfolding recipe_lines
rice_run h = ground arith

rice-Takes : Takes (recipe_lines empty_db.raw_materials tapsilog.recipe_items)
unfolding recipe_lines
rice-Takes = (omega arith, tt)

empty_run :
    lookup 2 (refresh_availability both empty_db).1.products
    ≡ some (record tapsilog { is_available = Bool.false })
unfolding refresh_availability refresh_loop refresh_product is_touched product_stock
    servings_available least_servings recipe_lines
empty_run = refl

refresh_availability-Makes_example :
    (false ≡ true) ↔ Makes 1 (recipe_lines empty_db.raw_materials tapsilog.recipe_items)
refresh_availability-Makes_example =
    refresh_availability-Makes both empty_db 2 tapsilog
      (record tapsilog { is_available = Bool.false }) (refl, (refl, tt)) refl touched_run refl
      rice_run rice-Takes empty_run
