-- ===== src/Stock/Needs.antt =====
-- What an order needs: `computeStockNeeds`, `findShortages` and `servingsAvailable` of
-- apps/api/src/modules/inventory/fulfillment.ts. A line carries its product and its recipe's raw
-- materials, as the query's `include` joins them.
pub mod Demand
pub mod Entries
pub mod Shortages
use zak_s_sizzling.Prelude.{
  ℕ, ◌+◌, ◌*◌, ◌/◌, ◌≡◌, Bool, Option, none, some, List, [], ◌∷◌, ◌++◌, arith, ltb, ◌==◌, or_else,
  if◌then◌else◌, min, map, String,
}
use zak_s_sizzling.Prelude.Text.{Text, text, decimal}
use zak_s_sizzling.Prelude.Dict.{Dict, lookup, insert}
use zak_s_sizzling.Store.{
  StockTracking, unit, recipe, MaterialUnit, g, ml, pc, Shortage, ShortageKind, Error, http_error,
  stock_shortage, Result, ok, err,
}

pub record RecipeLine : Type 0 where
  pub raw_material_id : ℕ
  pub qty_per_serving : ℕ
  pub material_name : Text
  pub material_unit : MaterialUnit
  pub material_stock : ℕ

pub record StockLine : Type 0 where
  pub qty : ℕ
  pub product_id : ℕ
  pub product_name : Text
  pub tracking : StockTracking
  pub recipe_items : List RecipeLine

pub record UnitNeed : Type 0 where
  pub name : Text
  pub qty : ℕ

pub record MaterialNeed : Type 0 where
  pub name : Text
  pub unit : MaterialUnit
  pub qty : ℕ

pub record StockNeeds : Type 0 where
  pub units : Dict UnitNeed
  pub materials : Dict MaterialNeed

-- `units.get(id)?.qty ?? 0`
abbrev pub unit_qty : Option UnitNeed → ℕ
unit_qty none = 0
unit_qty (some n) = n.qty

abbrev pub material_qty : Option MaterialNeed → ℕ
material_qty none = 0
material_qty (some n) = n.qty

unfoldable pub add_unit : StockLine → Dict UnitNeed → Dict UnitNeed
add_unit l units =
    insert l.product_id
      (record { name = l.product_name; qty = unit_qty (lookup l.product_id units) + l.qty }) units

-- `current ? current.qty.add(amount) : amount`
abbrev add_amount : Option MaterialNeed → ℕ → ℕ
add_amount none amount = amount
add_amount (some current) amount = current.qty + amount

unfoldable pub add_material : ℕ → RecipeLine → Dict MaterialNeed → Dict MaterialNeed
add_material qty item materials =
    insert item.raw_material_id
      (record {
        name = item.material_name;
        unit = item.material_unit;
        qty = add_amount (lookup item.raw_material_id materials) (item.qty_per_serving * qty);
      })
      materials

unfoldable pub add_materials : ℕ → List RecipeLine → Dict MaterialNeed → Dict MaterialNeed
add_materials qty [] materials = materials
add_materials qty (item ∷ items) materials =
    add_materials qty items (add_material qty item materials)

pub no_recipe : Text → Error
no_recipe name = http_error 409 (name ++ text " has no recipe set up yet")

unfoldable pub needs_from : StockNeeds → List StockLine → Result StockNeeds
needs_from needs [] = ok needs
needs_from needs (l ∷ ls) = elim l.tracking [
  | unit ↦ needs_from (record needs { units = add_unit l needs.units }) ls
  | recipe ↦ elim l.recipe_items [
    | [] ↦ err (no_recipe l.product_name)
    | _ ∷ _ ↦
        needs_from (record needs { materials = add_materials l.qty l.recipe_items needs.materials })
          ls
  ]
]

abbrev pub no_needs : StockNeeds
no_needs = record { units = []; materials = [] }

unfoldable pub compute_stock_needs : List StockLine → Result StockNeeds
unfolding needs_from
compute_stock_needs lines = needs_from no_needs lines

unfoldable pub unit_shortage : ℕ → UnitNeed → ℕ → Shortage
unit_shortage id need available = record {
  kind = ShortageKind.unit;
  id = id;
  name = need.name;
  unit = none;
  needed = need.qty;
  available = available;
}

unfoldable pub material_shortage : ℕ → MaterialNeed → ℕ → Shortage
material_shortage id need available = record {
  kind = ShortageKind.material;
  id = id;
  name = need.name;
  unit = some need.unit;
  needed = need.qty;
  available = available;
}

unfoldable pub short_units : Dict UnitNeed → Dict ℕ → List Shortage
short_units [] stock = []
short_units ((id, need) ∷ needs) stock =
    let available = or_else (lookup id stock) 0 in
    if ltb available need.qty
    then unit_shortage id need available ∷ short_units needs stock
    else short_units needs stock

unfoldable pub short_materials : Dict MaterialNeed → Dict ℕ → List Shortage
short_materials [] stock = []
short_materials ((id, need) ∷ needs) stock =
    let available = or_else (lookup id stock) 0 in
    if ltb available need.qty
    then material_shortage id need available ∷ short_materials needs stock
    else short_materials needs stock

unfoldable pub find_shortages : StockNeeds → Dict ℕ → Dict ℕ → List Shortage
unfolding short_units short_materials
find_shortages needs units materials =
    short_units needs.units units ++ short_materials needs.materials materials

-- The least of the servings that each line allows. A division by zero cannot come up: the amount
-- per serving is positive by a rule of the database.
abbrev servings_of : RecipeLine → ℕ
servings_of r = r.material_stock / r.qty_per_serving

unfoldable pub least_servings : ℕ → List RecipeLine → ℕ
least_servings n [] = n
least_servings n (r ∷ rs) = least_servings (min n (servings_of r)) rs

unfoldable pub servings_available : List RecipeLine → ℕ
unfolding least_servings
servings_available [] = 0
servings_available (r ∷ rs) = least_servings (servings_of r) rs
