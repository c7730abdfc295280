-- ===== src/Products/Recipes.antt =====
-- A product that is counted has no recipe; a dish has one, of raw materials that there are.
pub mod Kept
use zak_s_sizzling.Products.Faces.Settled.{SameMenu, refresh_if-SameMenu, settle_stock-SameMenu}
use zak_s_sizzling.Products.Saved.{insert_product-cases, refresh_if-ok, save_row-cases}
use zak_s_sizzling.Products.{
  ProductChange, changed_product, settle_stock, update_found, update_product, ProductInput,
  create_product, new_product, refresh_if, new_recipe, recipe_rows, same_tracking, material_ids,
  count_in, assert_valid_recipe,
}
use zak_s_sizzling.Inventory.{is_recipe}
use zak_s_sizzling.Store.{Result-cases, Db, Product, RawMaterial, RecipeItem, StockTracking, ok}
use zak_s_sizzling.Prelude.Dict.{
  insert, Dict, lookup, keys, NodupKeys, lookup-insert, insert-NodupKeys,
}
use zak_s_sizzling.Products.Faces.{NodupKeys-faces, faces-NodupKeys, faces-row}
use zak_s_sizzling.Prelude.{
  ℕ, ◌≡◌, ◌≢◌, refl, Bool, true, not, Option, none, some, List, [], ◌∷◌, ◌==◌, arith, is_some,
  or_else, length, keep, every, Bool-cases, Option-cases, inl, inr, subst,
}
use zak_s_sizzling.Prelude.Ids.{includes_id, all_different, includes-all}
use zak_s_sizzling.Stock.Refresh.{contains}

abbrev counts_in : List ℕ → ℕ × RawMaterial → Bool
counts_in ids r = contains r.0 ids

kept-lookup :
    (ids : List ℕ) (ms : Dict RawMaterial) (i : ℕ)
    → includes_id (keys (keep (counts_in ids) ms)) i ≡ true
    → is_some (lookup i ms) ≡ true
kept-lookup ids [] i h = cc
kept-lookup ids ((j, m) ∷ ms) i h = ground (arith, kept-lookup ids ms i)

kept-different :
    (ids : List ℕ) (ms : Dict RawMaterial)
    → NodupKeys ms
    → all_different (keys (keep (counts_in ids) ms)) ≡ true
kept-different ids [] n = refl
kept-different ids ((j, m) ∷ ms) n =
    ground (arith, kept-different ids ms n.1, kept-lookup ids ms j, n.0)

kept-every :
    (ids : List ℕ) (ms : Dict RawMaterial)
    → every (includes_id ids) (keys (keep (counts_in ids) ms)) ≡ true
kept-every ids [] = refl
kept-every ids ((j, m) ∷ ms) = ground (arith, kept-every ids ms)

length-material_ids : (rs : List RecipeItem) → length rs ≡ length (material_ids rs)
length-material_ids [] = refl
length-material_ids (r ∷ rs) = omega (arith, length-material_ids rs)

length-kept :
    (ids : List ℕ) (ms : Dict RawMaterial)
    → length (keys (keep (counts_in ids) ms)) ≡ length (keep (counts_in ids) ms)
length-kept ids [] = refl
length-kept ids ((j, m) ∷ ms) = ground (arith, length-kept ids ms)

-- As many rows as ids: each id has its row.
count_in-all :
    (ids : List ℕ) (ms : Dict RawMaterial) (i : ℕ)
    → NodupKeys ms
    → count_in ids ms ≡ length ids
    → includes_id ids i ≡ true
    → is_some (lookup i ms) ≡ true
unfolding count_in
count_in-all ids ms i n c h = kept-lookup ids ms i (
    includes-all i (keys (keep (counts_in ids) ms)) ids (omega (arith, length-kept ids ms))
      (kept-different ids ms n) (kept-every ids ms) h)

-- The recipe that fits a tracking mode.
abbrev pub ValidRecipe : Dict RawMaterial → StockTracking → List RecipeItem → Type 0
ValidRecipe ms StockTracking.unit rs = rs ≡ []
ValidRecipe ms StockTracking.recipe rs =
    (rs ≢ []) × ((i : ℕ) → includes_id (material_ids rs) i ≡ true → is_some (lookup i ms) ≡ true)

-- Every product's recipe fits it.
pub record ValidRecipes (db : Db) : Type 0 where
  pub products_distinct : NodupKeys db.products
  pub materials_distinct : NodupKeys db.raw_materials
  pub recipes :
      (i : ℕ) (p : Product)
      → lookup i db.products ≡ some p
      → ValidRecipe db.raw_materials p.tracking p.recipe_items

checked_recipe :
    (r : RecipeItem) (rs : List RecipeItem) (is_new : Bool) (db : Db)
    → NodupKeys db.raw_materials
    → assert_valid_recipe StockTracking.recipe (some (r ∷ rs)) is_new db ≡ ok tt
    → ValidRecipe db.raw_materials StockTracking.recipe (r ∷ rs)
unfolding assert_valid_recipe
checked_recipe r rs is_new db n h = (
  λ e. cc,
  λ i m.
      count_in-all (material_ids (r ∷ rs)) db.raw_materials i n
        (ground (arith, length-material_ids (r ∷ rs))) m,
)

-- What a new product is saved with.
pub recipe_rows-ValidRecipe :
    (t : StockTracking) (recipe : Option (List RecipeItem)) (db : Db)
    → NodupKeys db.raw_materials
    → assert_valid_recipe t recipe true db ≡ ok tt
    → ValidRecipe db.raw_materials t (recipe_rows t recipe)
unfolding assert_valid_recipe
recipe_rows-ValidRecipe StockTracking.unit recipe db n h = refl
recipe_rows-ValidRecipe StockTracking.recipe none db n h = cc
recipe_rows-ValidRecipe StockTracking.recipe (some []) db n h = cc
recipe_rows-ValidRecipe StockTracking.recipe (some (r ∷ rs)) db n h =
    checked_recipe r rs true db n h

-- What an edited product is saved with.
pub new_recipe-ValidRecipe :
    (t t' : StockTracking) (recipe : Option (List RecipeItem)) (old : List RecipeItem) (db : Db)
    → NodupKeys db.raw_materials
    → ValidRecipe db.raw_materials t old
    → assert_valid_recipe t' recipe (not (same_tracking t' t)) db ≡ ok tt
    → ValidRecipe db.raw_materials t' (new_recipe t' (not (same_tracking t' t)) recipe old)
unfolding assert_valid_recipe new_recipe
new_recipe-ValidRecipe StockTracking.unit StockTracking.unit recipe old db n v h = v
new_recipe-ValidRecipe StockTracking.recipe StockTracking.unit recipe old db n v h = refl
new_recipe-ValidRecipe StockTracking.recipe StockTracking.recipe none old db n v h = v
new_recipe-ValidRecipe StockTracking.unit StockTracking.recipe none old db n v h = cc
new_recipe-ValidRecipe t StockTracking.recipe (some []) old db n v h = cc
new_recipe-ValidRecipe t StockTracking.recipe (some (r ∷ rs)) old db n v h =
    checked_recipe r rs (not (same_tracking StockTracking.recipe t)) db n h

-- Only the menu's faces and the raw materials matter.
pub SameMenu-ValidRecipes : (db db' : Db) → SameMenu db db' → ValidRecipes db → ValidRecipes db'
SameMenu-ValidRecipes db db' s v = record {
  products_distinct =
      NodupKeys-faces db'.products (rw (s.menu) (faces-NodupKeys db.products v.products_distinct));
  materials_distinct = rw s.materials v.materials_distinct;
  recipes = λ i p l.
      let (q, m, f) = faces-row i p db'.products db.products s.menu l in
      rw s.materials (
        subst (λ (x : Product). ValidRecipe db.raw_materials x.tracking x.recipe_items) f
          (v.recipes i q m));
}

-- A row whose recipe fits it may be put in.
pub insert-ValidRecipes :
    (id : ℕ) (p : Product) (db db' : Db)
    → db'.products ≡ insert id p db.products
    → db'.raw_materials ≡ db.raw_materials
    → ValidRecipe db.raw_materials p.tracking p.recipe_items
    → ValidRecipes db
    → ValidRecipes db'
insert-ValidRecipes id p db db' e m w v = record {
  products_distinct = rw e (insert-NodupKeys id p db.products v.products_distinct);
  materials_distinct = rw m v.materials_distinct;
  recipes = λ i q l. elim (Bool-cases (id == i)) [
    | inl s ↦
        let same : p ≡ q = ground (arith, l, e, s, lookup-insert id i p db.products) in
        rw m
          (subst (λ (x : Product). ValidRecipe db.raw_materials x.tracking x.recipe_items) same w)
    | inr s ↦ rw m (v.recipes i q (ground (arith, l, e, s, lookup-insert id i p db.products)))
  ];
}
