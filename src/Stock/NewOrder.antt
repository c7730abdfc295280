-- ===== src/Stock/NewOrder.antt =====
-- The check before an order is placed: `assertStockForNewOrder` of
-- apps/api/src/modules/inventory/fulfillment.ts. A line carries its product's count and its raw
-- materials' stock, as the query of `createOrder` joins them.
pub mod Precheck
use zak_s_sizzling.Prelude.{
  ℕ, Bool, true, false, ◌||◌, Option, none, some, List, [], ◌∷◌, ◌++◌, ◌==◌, any, map, keep,
  or_else, if◌then◌else◌,
}
use zak_s_sizzling.Prelude.Text.{Text, text, text_eq}
use zak_s_sizzling.Prelude.Dict.{Dict, insert}
use zak_s_sizzling.Store.{Shortage, Result, ok, err, Error, stock_shortage}
use zak_s_sizzling.Stock.Needs.{
  RecipeLine, StockLine, StockNeeds, compute_stock_needs, find_shortages,
}
use zak_s_sizzling.Stock.Deduct.{join, is_empty}

pub record NewOrderLine : Type 0 where
  pub line : StockLine
  pub inventory : Option ℕ

abbrev pub stock_line_of : NewOrderLine → StockLine
stock_line_of l = l.line

-- `new Map(pairs)`: the last pair of a key counts.
unfoldable pub unit_map : Dict ℕ → List NewOrderLine → Dict ℕ
unit_map m [] = m
unit_map m (l ∷ ls) = unit_map (insert l.line.product_id (or_else l.inventory 0) m) ls

unfoldable pub material_map : Dict ℕ → List RecipeLine → Dict ℕ
material_map m [] = m
material_map m (r ∷ rs) = material_map (insert r.raw_material_id r.material_stock m) rs

-- `lines.flatMap((l) => l.product.recipeItems.map(…))`
unfoldable pub all_recipe_lines : List NewOrderLine → List RecipeLine
all_recipe_lines [] = []
all_recipe_lines (l ∷ ls) = l.line.recipe_items ++ all_recipe_lines ls

abbrev has_id : ℕ → Shortage → Bool
has_id id s = s.id == id

-- A dish is named if its product is short, or a raw material of its recipe.
pub is_short_line : List Shortage → NewOrderLine → Bool
is_short_line ss l =
    any (has_id l.line.product_id) ss
    || any (λ r. any (has_id r.raw_material_id) ss) l.line.recipe_items

-- `[...new Set(names)]`: each name once, where it stands first.
abbrev add_name : List Text → Text → List Text
add_name seen name = if any (text_eq name) seen then seen else seen ++ name ∷ []

pub distinct_names : List Text → List Text → List Text
distinct_names seen [] = seen
distinct_names seen (n ∷ ns) = distinct_names (add_name seen n) ns

pub short_dishes : List Shortage → List NewOrderLine → List Text
unfolding distinct_names is_short_line
short_dishes ss lines =
    distinct_names [] (map (λ l. l.line.product_name) (keep (is_short_line ss) lines))

pub new_order_error : List Shortage → List NewOrderLine → Error
new_order_error ss lines = stock_shortage ss (
    text "Sorry, there isn't enough stock for "
    ++ (join (text ", ") (short_dishes ss lines) ++ text " right now"))

unfoldable pub new_order_shortages : StockNeeds → List NewOrderLine → List Shortage
unfolding unit_map material_map all_recipe_lines
new_order_shortages needs lines =
    find_shortages needs (unit_map [] lines) (material_map [] (all_recipe_lines lines))

unfoldable pub assert_stock_for_new_order : List NewOrderLine → Result (Unit {0})
unfolding new_order_shortages
assert_stock_for_new_order lines = elim (compute_stock_needs (map stock_line_of lines)) [
  | err e ↦ err e
  | ok needs ↦
      let shortages = new_order_shortages needs lines in
      if is_empty shortages then ok tt else err (new_order_error shortages lines)
]
