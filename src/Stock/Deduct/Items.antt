-- ===== src/Stock/Deduct/Items.antt =====
-- The items of an order: the rows that belong to it, and no others.
use zak_s_sizzling.Prelude.{
  ℕ, ◌≡◌, refl, none, some, List, [], ◌∷◌, arith, All, Option-cases, inl, inr, ◌==◌, if◌then◌else◌,
}
use zak_s_sizzling.Prelude.Dict.{Dict, lookup, NodupKeys}
use zak_s_sizzling.Store.{Db, OrderItem, RawMaterial, RecipeItem, Product}
use zak_s_sizzling.Stock.Deduct.{items_of, order_lines, recipe_lines, stock_line}
use zak_s_sizzling.Stock.Deduct.Covered.{material_stock}

items_of-none :
    (order_id id : ℕ) (items : Dict OrderItem)
    → lookup id items ≡ none
    → lookup id (items_of order_id items) ≡ none
unfolding items_of
items_of-none order_id id [] e = refl
items_of-none order_id id ((j, i) ∷ items) e = ground (arith, items_of-none order_id id items)

pub lookup-items_of :
    (order_id id : ℕ) (items : Dict OrderItem) (i : OrderItem)
    → NodupKeys items
    → lookup id items ≡ some i
    → lookup id (items_of order_id items) ≡ (if i.order_id == order_id then some i else none)
unfolding items_of
lookup-items_of order_id id [] i n e = ground arith
lookup-items_of order_id id ((j, k) ∷ items) i n e =
    ground (arith, lookup-items_of order_id id items i n.1, items_of-none order_id j items n.0)

-- An order's lines are read from three tables.
pub order_lines_frame :
    (order_id : ℕ) (db db' : Db)
    → db'.products ≡ db.products
    → db'.raw_materials ≡ db.raw_materials
    → db'.order_items ≡ db.order_items
    → order_lines order_id db' ≡ order_lines order_id db
unfolding order_lines
order_lines_frame order_id db db' p m i = rw (p, m, i)

-- Each recipe line carries what its raw material's row has in stock.
recipe_lines-Carries :
    (ms : Dict RawMaterial) (rs : List RecipeItem)
    → All
        (λ r. r.material_stock ≡ material_stock (lookup r.raw_material_id ms))
        (recipe_lines ms rs)
unfolding recipe_lines
recipe_lines-Carries ms [] = tt
recipe_lines-Carries ms (r ∷ rs) = elim (Option-cases (lookup r.raw_material_id ms)) [
  | inl e ↦ rw (e, recipe_lines) (recipe_lines-Carries ms rs)
  | inr (m, e) ↦ rw (e, recipe_lines) (rw e refl, recipe_lines-Carries ms rs)
]

pub stock_line-Carries :
    (ms : Dict RawMaterial) (qty id : ℕ) (p : Product)
    → All
        (λ r. r.material_stock ≡ material_stock (lookup r.raw_material_id ms))
        (stock_line ms qty id p).recipe_items
      × ((stock_line ms qty id p).product_id ≡ id)
unfolding stock_line
stock_line-Carries ms qty id p = (recipe_lines-Carries ms p.recipe_items, refl)
