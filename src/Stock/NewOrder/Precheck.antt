-- ===== src/Stock/NewOrder/Precheck.antt =====
-- What the check before an order promises: the stock that the lines carry covers their demand.
use zak_s_sizzling.Prelude.{
  ℕ, ◌≤◌, ◌≡◌, List, [], ◌∷◌, arith, All, or_else, map, All-append, inl, inr,
}
use zak_s_sizzling.Prelude.Dict.{Dict, lookup, insert, lookup-insert}
use zak_s_sizzling.Store.{ok, Result-cases, Db}
use zak_s_sizzling.Stock.Needs.{RecipeLine, compute_stock_needs}
use zak_s_sizzling.Stock.Needs.Demand.{
  IsMakeable, compute_stock_needs-demand, compute_stock_needs-IsMakeable,
  compute_stock_needs-NodupKeys,
}
use zak_s_sizzling.Stock.Needs.Shortages.{level, find_shortages-eq-nil}
use zak_s_sizzling.Stock.Deduct.{unit_stock}
use zak_s_sizzling.Stock.Deduct.Order.{Covers}
use zak_s_sizzling.Stock.Deduct.Covered.{material_stock}
use zak_s_sizzling.Stock.NewOrder.{
  NewOrderLine, stock_line_of, unit_map, material_map, all_recipe_lines, new_order_shortages,
  assert_stock_for_new_order,
}

-- Each line carries the stock that the tables have, as the query that loads it joins them.
abbrev pub IsLoaded : Db → NewOrderLine → Type 0
IsLoaded db l =
    (or_else l.inventory 0 ≡ unit_stock (lookup l.line.product_id db.inventory))
    × All (λ r. r.material_stock ≡ material_stock (lookup r.raw_material_id db.raw_materials))
        l.line.recipe_items

-- A level that is given for an id is the stock of the tables.
abbrev Upto : (ℕ → ℕ) → Dict ℕ → Type 0
Upto stock m = (id : ℕ) → level id m ≤ stock id

insert-Upto :
    (stock : ℕ → ℕ) (k v : ℕ) (m : Dict ℕ) → v ≡ stock k → Upto stock m → Upto stock (insert k v m)
insert-Upto stock k v m e u id = grind (arith, lookup-insert k id v m, u id)

unit_map-Upto :
    (db : Db) (ls : List NewOrderLine) (m : Dict ℕ)
    → All (IsLoaded db) ls
    → Upto (λ id. unit_stock (lookup id db.inventory)) m
    → Upto (λ id. unit_stock (lookup id db.inventory)) (unit_map m ls)
unfolding unit_map
unit_map-Upto db [] m h u = u
unit_map-Upto db (l ∷ ls) m h u =
    unit_map-Upto db ls (insert l.line.product_id (or_else l.inventory 0) m) h.1 (
      insert-Upto (λ id. unit_stock (lookup id db.inventory)) l.line.product_id
        (or_else l.inventory 0) m h.0.0 u)

abbrev Carries : Db → List RecipeLine → Type 0
Carries db rs =
    All (λ r. r.material_stock ≡ material_stock (lookup r.raw_material_id db.raw_materials)) rs

material_map-Upto :
    (db : Db) (rs : List RecipeLine) (m : Dict ℕ)
    → Carries db rs
    → Upto (λ id. material_stock (lookup id db.raw_materials)) m
    → Upto (λ id. material_stock (lookup id db.raw_materials)) (material_map m rs)
unfolding material_map
material_map-Upto db [] m h u = u
material_map-Upto db (r ∷ rs) m h u =
    material_map-Upto db rs (insert r.raw_material_id r.material_stock m) h.1 (
      insert-Upto (λ id. material_stock (lookup id db.raw_materials)) r.raw_material_id
        r.material_stock m h.0 u)

all_recipe_lines-Carries :
    (db : Db) (ls : List NewOrderLine) → All (IsLoaded db) ls → Carries db (all_recipe_lines ls)
unfolding all_recipe_lines
all_recipe_lines-Carries db [] h = tt
all_recipe_lines-Carries db (l ∷ ls) h =
    All-append _ l.line.recipe_items (all_recipe_lines ls) h.0.1
      (all_recipe_lines-Carries db ls h.1)

-- An order that passes the check has only dishes that can be made, and the stock covers all of them
-- together, also where several dishes share a raw material.
pub assert_stock_for_new_order-Covers :
    (db : Db) (lines : List NewOrderLine)
    → All (IsLoaded db) lines
    → assert_stock_for_new_order lines ≡ ok tt
    → All IsMakeable (map stock_line_of lines) × Covers db (map stock_line_of lines)
unfolding assert_stock_for_new_order new_order_shortages
assert_stock_for_new_order-Covers db lines h e =
    elim (Result-cases (compute_stock_needs (map stock_line_of lines))) [
      | inr (x, f) ↦ ground arith
      | inl (needs, f) ↦ (
        (compute_stock_needs-IsMakeable (map stock_line_of lines)).0 (needs, f),
        λ id. ground (
          arith,
          compute_stock_needs-demand (map stock_line_of lines) needs id f,
          (find_shortages-eq-nil needs (unit_map [] lines)
                (material_map [] (all_recipe_lines lines))
                (compute_stock_needs-NodupKeys (map stock_line_of lines) needs f)).0
              (ground arith) id,
          unit_map-Upto db lines [] h (λ i. omega arith) id,
          material_map-Upto db (all_recipe_lines lines) [] (all_recipe_lines-Carries db lines h)
              (λ i. omega arith) id,
        ),
      )
    ]
