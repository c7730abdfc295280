-- ===== src/Stock/Needs/Demand.antt =====
-- The needs of an order are its demand, and they are found exactly when every dish can be made.
use zak_s_sizzling.Prelude.{
  ℕ, ◌+◌, ◌*◌, ◌≡◌, refl, List, [], ◌∷◌, arith, ◌==◌, if◌then◌else◌, All, ◌≢◌, ◌↔◌,
}
use zak_s_sizzling.Prelude.Dict.{Dict, lookup, lookup-insert, NodupKeys, insert-NodupKeys}
use zak_s_sizzling.Store.{unit, recipe, ok}
use zak_s_sizzling.Stock.Needs.{
  RecipeLine, StockLine, StockNeeds, UnitNeed, MaterialNeed, unit_qty, material_qty, add_unit,
  add_material, add_materials, needs_from, no_needs, compute_stock_needs,
}

-- The units of a product that the lines ask for.
abbrev pub unit_demand : ℕ → List StockLine → ℕ
unit_demand id [] = 0
unit_demand id (l ∷ ls) = elim l.tracking [
  | unit ↦ (if l.product_id == id then l.qty else 0) + unit_demand id ls
  | recipe ↦ unit_demand id ls
]

abbrev pub recipe_demand : ℕ → ℕ → List RecipeLine → ℕ
recipe_demand id qty [] = 0
recipe_demand id qty (r ∷ rs) =
    (if r.raw_material_id == id then r.qty_per_serving * qty else 0) + recipe_demand id qty rs

-- The amount of a raw material that the lines ask for, over all their dishes.
abbrev pub material_demand : ℕ → List StockLine → ℕ
material_demand id [] = 0
material_demand id (l ∷ ls) = elim l.tracking [
  | unit ↦ material_demand id ls
  | recipe ↦ recipe_demand id l.qty l.recipe_items + material_demand id ls
]

material_qty-add_material :
    (id qty : ℕ) (r : RecipeLine) (ms : Dict MaterialNeed)
    → material_qty (lookup id (add_material qty r ms))
      ≡ material_qty (lookup id ms)
        + (if r.raw_material_id == id then r.qty_per_serving * qty else 0)
unfolding add_material
material_qty-add_material id qty r ms = grind (arith, lookup-insert)

material_qty-add_materials :
    (id qty : ℕ) (items : List RecipeLine) (ms : Dict MaterialNeed)
    → material_qty (lookup id (add_materials qty items ms))
      ≡ material_qty (lookup id ms) + recipe_demand id qty items
unfolding add_materials
material_qty-add_materials id qty [] ms = omega arith
material_qty-add_materials id qty (r ∷ rs) ms = ground (
  arith,
  material_qty-add_materials id qty rs (add_material qty r ms),
  material_qty-add_material id qty r ms,
)

unit_qty-add_unit :
    (id : ℕ) (l : StockLine) (us : Dict UnitNeed)
    → unit_qty (lookup id (add_unit l us))
      ≡ unit_qty (lookup id us) + (if l.product_id == id then l.qty else 0)
unfolding add_unit
unit_qty-add_unit id l us = grind (arith, lookup-insert)

abbrev Adds : ℕ → List StockLine → StockNeeds → StockNeeds → Type 0
Adds id ls n m =
    (unit_qty (lookup id m.units) ≡ unit_qty (lookup id n.units) + unit_demand id ls)
    × (material_qty (lookup id m.materials)
        ≡ material_qty (lookup id n.materials) + material_demand id ls)

needs_from-Adds :
    (id : ℕ) (n : StockNeeds) (ls : List StockLine) (m : StockNeeds)
    → needs_from n ls ≡ ok m
    → Adds id ls n m
unfolding needs_from
needs_from-Adds id n [] m e = ground arith
needs_from-Adds id n (l ∷ ls) m e = ground (
  arith,
  needs_from-Adds id (record n { units = add_unit l n.units }) ls m,
  needs_from-Adds id (record n { materials = add_materials l.qty l.recipe_items n.materials }) ls m,
  unit_qty-add_unit id l n.units,
  material_qty-add_materials id l.qty l.recipe_items n.materials,
)

-- The needs that are found are the demand: for every product the units that the lines ask for, and
-- for every raw material the sum of what each dish takes, dishes that share it added up.
pub compute_stock_needs-demand :
    (lines : List StockLine) (needs : StockNeeds) (id : ℕ)
    → compute_stock_needs lines ≡ ok needs
    → (unit_qty (lookup id needs.units) ≡ unit_demand id lines)
      × (material_qty (lookup id needs.materials) ≡ material_demand id lines)
unfolding compute_stock_needs
compute_stock_needs-demand lines needs id e =
    ground (arith, needs_from-Adds id no_needs lines needs e)

abbrev pub IsMakeable : StockLine → Type 0
IsMakeable l = l.tracking ≡ recipe → l.recipe_items ≢ []

needs_from_total :
    (n : StockNeeds) (ls : List StockLine)
    → All IsMakeable ls
    → (m : StockNeeds) × (needs_from n ls ≡ ok m)
unfolding needs_from
needs_from_total n [] h = (n, refl)
needs_from_total n (l ∷ ls) (p, h) = ground (
  arith,
  needs_from_total (record n { units = add_unit l n.units }) ls h,
  needs_from_total (record n { materials = add_materials l.qty l.recipe_items n.materials }) ls h,
)

needs_from-IsMakeable :
    (n : StockNeeds) (ls : List StockLine) (m : StockNeeds)
    → needs_from n ls ≡ ok m
    → All IsMakeable ls
unfolding needs_from
needs_from-IsMakeable n [] m e = tt
needs_from-IsMakeable n (l ∷ ls) m e = ground (
  arith,
  needs_from-IsMakeable (record n { units = add_unit l n.units }) ls m,
  needs_from-IsMakeable (record n { materials = add_materials l.qty l.recipe_items n.materials }) ls
      m,
)

-- Needs are found exactly when no line is a recipe dish without a recipe.
pub compute_stock_needs-IsMakeable :
    (lines : List StockLine)
    → ((needs : StockNeeds) × (compute_stock_needs lines ≡ ok needs)) ↔ All IsMakeable lines
unfolding compute_stock_needs
compute_stock_needs-IsMakeable lines =
    (λ (needs, e). needs_from-IsMakeable no_needs lines needs e, needs_from_total no_needs lines)

add_materials-NodupKeys :
    (qty : ℕ) (items : List RecipeLine) (ms : Dict MaterialNeed)
    → NodupKeys ms
    → NodupKeys (add_materials qty items ms)
unfolding add_materials add_material
add_materials-NodupKeys qty [] ms h = h
add_materials-NodupKeys qty (r ∷ rs) ms h =
    add_materials-NodupKeys qty rs (add_material qty r ms) (insert-NodupKeys _ _ ms h)

needs_from-NodupKeys :
    (n : StockNeeds) (ls : List StockLine) (m : StockNeeds)
    → needs_from n ls ≡ ok m
    → NodupKeys n.units × NodupKeys n.materials
    → NodupKeys m.units × NodupKeys m.materials
unfolding needs_from add_unit
needs_from-NodupKeys n [] m e h = ground arith
needs_from-NodupKeys n (l ∷ ls) m e h = ground (
  arith,
  needs_from-NodupKeys (record n { units = add_unit l n.units }) ls m,
  needs_from-NodupKeys (record n { materials = add_materials l.qty l.recipe_items n.materials }) ls
      m,
  add_materials-NodupKeys l.qty l.recipe_items n.materials h.1,
  insert-NodupKeys l.product_id
      (record { name = l.product_name; qty = unit_qty (lookup l.product_id n.units) + l.qty })
      n.units h.0,
)

-- No product and no raw material is listed twice among the needs.
pub compute_stock_needs-NodupKeys :
    (lines : List StockLine) (needs : StockNeeds)
    → compute_stock_needs lines ≡ ok needs
    → NodupKeys needs.units × NodupKeys needs.materials
unfolding compute_stock_needs
compute_stock_needs-NodupKeys lines needs e = needs_from-NodupKeys no_needs lines needs e (tt, tt)
