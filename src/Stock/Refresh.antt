-- ===== src/Stock/Refresh.antt =====
-- Availability after a stock change: `refreshAvailability` of
-- apps/api/src/modules/inventory/fulfillment.ts. The rows are read once, before the loop.
pub mod Availability
pub mod Frame
use zak_s_sizzling.Prelude.{
  ℕ, Bool, true, false, ◌&&◌, ◌||◌, Option, none, some, List, [], ◌∷◌, ◌++◌, ◌==◌, any, ltb,
  if◌then◌else◌,
}
use zak_s_sizzling.Prelude.Dict.{Dict, lookup, insert}
use zak_s_sizzling.Store.{
  Db, Product, Inventory, RawMaterial, RecipeItem, StockTracking, Event, inventory_updated, Proc,
  ok,
}
use zak_s_sizzling.Stock.Needs.{servings_available}
use zak_s_sizzling.Stock.Deduct.{TouchedStock, unit_stock, recipe_lines, is_empty}

abbrev pub contains : ℕ → List ℕ → Bool
contains id ids = any (λ j. j == id) ids

-- The query's `where`: a touched product, or one whose recipe uses a touched raw material.
unfoldable pub is_touched : TouchedStock → ℕ → Product → Bool
is_touched t id p =
    contains id t.product_ids
    || any (λ (r : RecipeItem). contains r.raw_material_id t.material_ids) p.recipe_items

unfoldable pub product_stock : Dict Inventory → Dict RawMaterial → ℕ → Product → ℕ
product_stock inv ms id p = elim p.tracking [
  | StockTracking.recipe ↦ servings_available (recipe_lines ms p.recipe_items)
  | StockTracking.unit ↦ unit_stock (lookup id inv)
]

abbrev pub bool_eq : Bool → Bool → Bool
bool_eq true b = b
bool_eq false true = false
bool_eq false false = true

abbrev pub set_available : Bool → Product → Product
set_available b p = record p { is_available = b }

-- The body of the loop, on a row of the query.
unfoldable pub refresh_product : ℕ → Product → ℕ → Db → Db
refresh_product id p stock db =
    let available = ltb 0 stock in
    record db {
      products =
          if bool_eq available p.is_available
          then db.products
          else insert id (set_available available p) db.products;
      events = db.events ++ inventory_updated id available stock ∷ [];
    }

unfoldable pub refresh_loop :
    TouchedStock → Dict Inventory → Dict RawMaterial → Dict Product → Db → Db
refresh_loop t inv ms [] db = db
refresh_loop t inv ms ((id, p) ∷ ps) db =
    refresh_loop t inv ms ps
      (if is_touched t id p then refresh_product id p (product_stock inv ms id p) db else db)

unfoldable pub refresh_availability : TouchedStock → Proc (Unit {0})
unfolding refresh_loop
refresh_availability t db = (
  ok tt,
  if is_empty t.product_ids && is_empty t.material_ids
      then db
      else refresh_loop t db.inventory db.raw_materials db.products db,
)
