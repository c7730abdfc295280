-- ===== src/Products/Recipes/Kept.antt =====
-- Every change of the menu leaves each product with a recipe that fits it.
use zak_s_sizzling.Products.Recipes.{
  SameMenu-ValidRecipes, ValidRecipes, insert-ValidRecipes, new_recipe-ValidRecipe,
  recipe_rows-ValidRecipe,
}
use zak_s_sizzling.Products.Faces.Settled.{refresh_if-SameMenu, settle_stock-SameMenu}
use zak_s_sizzling.Products.Saved.{insert_product-cases, refresh_if-ok, save_row-cases}
use zak_s_sizzling.Products.{
  ProductChange, changed_product, settle_stock, update_found, update_product, ProductInput,
  change_fits, create_product, new_product, refresh_if, same_tracking, assert_valid_recipe,
}
use zak_s_sizzling.Inventory.{is_recipe}
use zak_s_sizzling.Store.{Result-cases, Db, Product, StockTracking}
use zak_s_sizzling.Prelude.Dict.{insert, lookup}
use zak_s_sizzling.Prelude.{
  ℕ, ◌≡◌, refl, true, not, some, arith, or_else, Bool-cases, Option-cases, inl, inr,
}

-- Whatever is asked for, a new product leaves every product with a recipe that fits it.
pub create_product-ValidRecipes :
    (id : ℕ) (i : ProductInput) (db : Db)
    → ValidRecipes db
    → ValidRecipes (create_product id i db).1
unfolding create_product
create_product-ValidRecipes id i db v =
    let t = or_else i.tracking StockTracking.unit in
    elim (Result-cases (assert_valid_recipe t i.recipe true db)) [
      | inr (e, a) ↦ let q : (create_product id i db).1 ≡ db = ground (arith, a) in rw q v
      | inl (u, a) ↦ elim (insert_product-cases id i t db) [
        | inl (e, h) ↦ let q : (create_product id i db).1 ≡ db = ground (arith, a, h) in rw q v
        | inr (mid, h) ↦
            let saved =
              insert-ValidRecipes id (new_product i t) db mid h.saved h.materials
                (unfold new_product in recipe_rows-ValidRecipe t i.recipe db v.materials_distinct a)
                v in
            let q : (create_product id i db).1 ≡ (refresh_if (is_recipe t) id mid).1 =
              ground (arith, a, h.returns, refresh_if-ok (is_recipe t) id mid) in
            rw q (
              SameMenu-ValidRecipes mid (refresh_if (is_recipe t) id mid).1
                (refresh_if-SameMenu (is_recipe t) id mid saved.products_distinct) saved)
      ]
    ]

update_found-ValidRecipes :
    (id : ℕ) (c : ProductChange) (p : Product) (t : StockTracking) (db : Db)
    → lookup id db.products ≡ some p
    → ValidRecipes db
    → ValidRecipes (update_found id c p t db).1
unfolding update_found
update_found-ValidRecipes id c p t db l v =
    let switching = not (same_tracking t p.tracking) in
    let row = changed_product c t p in
    elim (Result-cases (assert_valid_recipe t c.recipe switching db)) [
      | inr (e, a) ↦ let q : (update_found id c p t db).1 ≡ db = ground (arith, a) in rw q v
      | inl (u, a) ↦ elim (Bool-cases (change_fits c)) [
        | inr f ↦ let q : (update_found id c p t db).1 ≡ db = ground (arith, a, f) in rw q v
        | inl f ↦ elim (save_row-cases id row db) [
          | inl (e, h) ↦
              let q : (update_found id c p t db).1 ≡ db = ground (arith, a, f, h) in rw q v
          | inr (h, free, known) ↦
              let mid = record db { products = insert id row db.products } in
              let saved =
                insert-ValidRecipes id row db mid refl refl
                  (unfold changed_product in
                    new_recipe-ValidRecipe p.tracking t c.recipe p.recipe_items db
                      v.materials_distinct (v.recipes id p l) a)
                  v in
              let q : (update_found id c p t db).1 ≡ (settle_stock id t switching c mid).1 =
                ground (arith, a, f, h) in
              rw q (
                SameMenu-ValidRecipes mid (settle_stock id t switching c mid).1
                  (settle_stock-SameMenu id t switching c mid saved.products_distinct) saved)
        ]
      ]
    ]

-- Whatever an edit asks for, and whether or not it goes through, every product still has a recipe
-- that fits it: none where it is counted, and one of known raw materials where it is not.
pub update_product-ValidRecipes :
    (id : ℕ) (c : ProductChange) (db : Db)
    → ValidRecipes db
    → ValidRecipes (update_product id c db).1
unfolding update_product
update_product-ValidRecipes id c db v = elim (Option-cases (lookup id db.products)) [
  | inl e ↦ let q : (update_product id c db).1 ≡ db = ground (arith, e) in rw q v
  | inr (p, e) ↦
      let t = or_else c.tracking p.tracking in
      let q : (update_product id c db).1 ≡ (update_found id c p t db).1 = ground (arith, e) in
      rw q (update_found-ValidRecipes id c p t db e v)
]
