-- ===== src/Stock/Refresh/Availability.antt =====
-- What the refresh leaves in each product's row.
use zak_s_sizzling.Prelude.{
  ℕ, ◌≡◌, refl, Bool, true, false, ◌&&◌, Option, none, some, List, [], ◌∷◌, arith, ◌==◌, ltb, ◌↔◌,
  if◌then◌else◌, Bool-cases, inl, inr, ◌≢◌, any,
}
use zak_s_sizzling.Prelude.Dict.{Dict, lookup, lookup-insert, NodupKeys}
use zak_s_sizzling.Store.{Db, Product, Inventory, RawMaterial, StockTracking}
use zak_s_sizzling.Stock.Needs.Shortages.{Takes, Makes, servings_available-Makes}
use zak_s_sizzling.Stock.Deduct.{TouchedStock, recipe_lines, is_empty}
use zak_s_sizzling.Stock.Refresh.{
  contains, is_touched, product_stock, set_available, bool_eq, refresh_product, refresh_loop,
  refresh_availability, RecipeItem,
}

-- The row of a product after the refresh: touched rows say whether there is stock.
abbrev pub refreshed : TouchedStock → Dict Inventory → Dict RawMaterial → ℕ → Product → Product
refreshed t inv ms id p =
    if is_touched t id p then set_available (ltb 0 (product_stock inv ms id p)) p else p

abbrev pub refreshed_row :
    TouchedStock → Dict Inventory → Dict RawMaterial → ℕ → Option Product → Option Product
refreshed_row t inv ms id none = none
refreshed_row t inv ms id (some p) = some (refreshed t inv ms id p)

bool_eq-true : (a b : Bool) → bool_eq a b ≡ true → b ≡ a
bool_eq-true a b h = ground arith

lookup-refresh_product :
    (id j stock : ℕ) (p : Product) (db : Db)
    → lookup id db.products ≡ some p
    → lookup j (refresh_product id p stock db).products
      ≡ (if id == j then some (set_available (ltb 0 stock) p) else lookup j db.products)
unfolding refresh_product
lookup-refresh_product id j stock p db h =
    ground (arith, lookup-insert id j (set_available (ltb 0 stock) p) db.products)

-- The rows that are still to come stand in the table as the query read them.
abbrev Held : Dict Product → Dict Product → Type 0
Held [] table = Unit
Held ((id, p) ∷ ps) table = (lookup id table ≡ some p) × Held ps table

abbrev body : TouchedStock → Dict Inventory → Dict RawMaterial → ℕ → Product → Db → Db
body t inv ms id p db =
    if is_touched t id p then refresh_product id p (product_stock inv ms id p) db else db

lookup-body :
    (t : TouchedStock) (inv : Dict Inventory) (ms : Dict RawMaterial) (id j : ℕ) (p : Product)
    (db : Db)
    → lookup id db.products ≡ some p
    → lookup j (body t inv ms id p db).products
      ≡ (if id == j then some (refreshed t inv ms id p) else lookup j db.products)
lookup-body t inv ms id j p db h =
    ground (arith, lookup-refresh_product id j (product_stock inv ms id p) p db h)

module _ (t : TouchedStock) (inv : Dict Inventory) (ms : Dict RawMaterial) where
  Held-body :
      (id : ℕ) (p : Product) (db : Db) (ps : Dict Product)
      → lookup id db.products ≡ some p
      → lookup id ps ≡ none
      → Held ps db.products
      → Held ps (body t inv ms id p db).products
  Held-body id p db [] h n held = tt
  Held-body id p db ((j, q) ∷ ps) h n held =
      ground (arith, Held-body id p db ps h, lookup-body t inv ms id j p db h)

  lookup-refresh_loop :
      (j : ℕ) (ps : Dict Product) (db : Db)
      → NodupKeys ps
      → Held ps db.products
      → lookup j (refresh_loop t inv ms ps db).products ≡ elim (lookup j ps) [
        | none ↦ lookup j db.products
        | some q ↦ some (refreshed t inv ms j q)
      ]
  unfolding refresh_loop
  lookup-refresh_loop j [] db n held = refl
  lookup-refresh_loop j ((id, p) ∷ ps) db n held = ground (
    arith,
    lookup-refresh_loop j ps (body t inv ms id p db) n.1 (Held-body id p db ps held.0 n.0 held.1),
    lookup-body t inv ms id j p db held.0,
  )

Held-cons :
    (id : ℕ) (p : Product) (ps table : Dict Product)
    → lookup id ps ≡ none
    → Held ps table
    → Held ps ((id, p) ∷ table)
Held-cons id p [] table n h = tt
Held-cons id p ((j, q) ∷ ps) table n h = ground (arith, Held-cons id p ps table)

Held-self : (ps : Dict Product) → NodupKeys ps → Held ps ps
Held-self [] n = tt
Held-self ((id, p) ∷ ps) n = ground (arith, Held-cons id p ps ps n.0 (Held-self ps n.1))

no_material :
    (ids : List ℕ) (rs : List RecipeItem)
    → is_empty ids ≡ true
    → any (λ (r : RecipeItem). contains r.raw_material_id ids) rs ≡ false
no_material ids [] h = refl
no_material ids (r ∷ rs) h = ground (arith, no_material ids rs h)

not_touched :
    (t : TouchedStock) (p : Product) (id : ℕ)
    → (is_empty t.product_ids && is_empty t.material_ids) ≡ true
    → is_touched t id p ≡ false
unfolding is_touched
not_touched t p id h = ground (arith, no_material t.material_ids p.recipe_items)

-- After the refresh every product that was touched, itself or through its recipe, is available
-- exactly if there is stock for it, and every other product is as it was.
pub lookup-refresh_availability :
    (t : TouchedStock) (db : Db) (id : ℕ)
    → NodupKeys db.products
    → lookup id (refresh_availability t db).1.products
      ≡ refreshed_row t db.inventory db.raw_materials id (lookup id db.products)
unfolding refresh_availability
lookup-refresh_availability t db id n =
    elim (Bool-cases (is_empty t.product_ids && is_empty t.material_ids)) [
      | inl e ↦ rw e (untouched (lookup id db.products) e)
      | inr e ↦ ground (
        arith,
        lookup-refresh_loop t db.inventory db.raw_materials id db.products db n
            (Held-self db.products n),
      )
    ]
  where
    untouched :
        (p : Option Product)
        → (is_empty t.product_ids && is_empty t.material_ids) ≡ true
        → p ≡ refreshed_row t db.inventory db.raw_materials id p
    untouched none e = refl
    untouched (some p) e = rw (not_touched t p id e)

-- A touched recipe dish is shown as available exactly when its recipe can be made once more.
pub refresh_availability-Makes :
    (t : TouchedStock) (db : Db) (id : ℕ) (p q : Product)
    → NodupKeys db.products
    → lookup id db.products ≡ some p
    → is_touched t id p ≡ true
    → p.tracking ≡ StockTracking.recipe
    → recipe_lines db.raw_materials p.recipe_items ≢ []
    → Takes (recipe_lines db.raw_materials p.recipe_items)
    → lookup id (refresh_availability t db).1.products ≡ some q
    → (q.is_available ≡ true) ↔ Makes 1 (recipe_lines db.raw_materials p.recipe_items)
unfolding product_stock
refresh_availability-Makes t db id p q n l touched r ne takes e =
    let row = lookup-refresh_availability t db id n in
    let makes =
      servings_available-Makes 1 (recipe_lines db.raw_materials p.recipe_items) ne takes in
    (λ a. makes.0 (ground arith), λ m. let h = makes.1 m in ground arith)
