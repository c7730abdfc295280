-- ===== src/Products.antt =====
-- Editing the menu (apps/api/src/modules/products/service.ts). A product's recipe is a list in its
-- row, in the order in which it was saved; a new id is an argument.
pub mod Faces
pub mod Saved
pub mod Recipes
pub mod Barcodes
pub mod Image
pub mod Import
use zak_s_sizzling.Menu.{ProductDto, get_product_by_id, has_barcode, product_not_found}
use zak_s_sizzling.Prelude.{
  ℕ, Bool, true, false, not, ◌&&◌, ◌||◌, Option, none, some, List, [], ◌∷◌, ◌++◌, ◌==◌,
  if◌then◌else◌, ltb, leb, is_some, or_else, length, keep, map, any,
}
use zak_s_sizzling.Prelude.Text.{Text, text, text_eq, decimal}
use zak_s_sizzling.Prelude.Dict.{Dict, lookup, insert}
use zak_s_sizzling.Inventory.{note_or_null, StockChange, apply_stock_change}
use zak_s_sizzling.Stock.Needs.{servings_available}
use zak_s_sizzling.Stock.Deduct.{recipe_lines}
use zak_s_sizzling.Stock.Refresh.{refresh_availability, contains}
use zak_s_sizzling.Store.{
  Db, Product, Category, UserRole, Nutrition, Inventory, RawMaterial, RecipeItem, StockTracking,
  StockAdjustment, ProductImage, OrderItem, Error, http_error, unique_violation,
  foreign_key_violation, record_not_found, value_out_of_range, Result, ok, err, Proc, pure, read,
  lift, or_throw, throw_if, throw_if_state, write, transaction, settle, continue, ◌>>=◌, ◌>>◌,
}

pub record ProductInput : Type 0 where
  pub name : Text
  pub price : ℕ
  pub cost : Option ℕ
  pub barcode : Option Text
  pub category_id : ℕ
  pub description : Option Text
  pub icon : Option Text
  pub stock_qty : ℕ
  pub min_stock_threshold : ℕ
  pub tracking : Option StockTracking
  pub recipe : Option (List RecipeItem)
  pub prep_minutes : Option ℕ
  pub ingredients : Option (List Text)
  pub allergens : Option (List Text)
  pub nutrition : Option Nutrition

-- What an edit sends; a field that is left out stays as it is.
pub record ProductChange : Type 0 where
  pub name : Option Text
  pub price : Option ℕ
  pub cost : Option ℕ
  pub barcode : Option Text
  pub category_id : Option ℕ
  pub description : Option Text
  pub icon : Option Text
  pub is_available : Option Bool
  pub stock_qty : Option ℕ
  pub min_stock_threshold : Option ℕ
  pub tracking : Option StockTracking
  pub recipe : Option (List RecipeItem)
  pub prep_minutes : Option ℕ
  pub ingredients : Option (List Text)
  pub allergens : Option (List Text)
  pub nutrition : Option Nutrition

pub no_recipe_error : Error
no_recipe_error = http_error 400 (text "Only products that use a recipe can have one")

pub needs_recipe_error : Error
needs_recipe_error =
    http_error 400 (text "A product that uses a recipe needs at least one raw material")

pub unknown_material_error : Error
unknown_material_error =
    http_error 404 (text "One of the raw materials in the recipe doesn't exist")

abbrev pub material_ids : List RecipeItem → List ℕ
material_ids rs = map (λ (r : RecipeItem). r.raw_material_id) rs

-- `rawMaterial.count({ where: { id: { in: ids } } })`
pub count_in : List ℕ → Dict RawMaterial → ℕ
count_in ids ms = length (keep (λ (r : ℕ × RawMaterial). contains r.0 ids) ms)

-- `tracking` and the recipe that it will be saved with; `is_new` also where the mode changes.
unfoldable pub assert_valid_recipe :
    StockTracking → Option (List RecipeItem) → Bool → Db → Result (Unit {0})
unfolding no_recipe_error needs_recipe_error unknown_material_error count_in
assert_valid_recipe StockTracking.unit none is_new db = ok tt
assert_valid_recipe StockTracking.unit (some []) is_new db = ok tt
assert_valid_recipe StockTracking.unit (some (r ∷ rs)) is_new db = err no_recipe_error
assert_valid_recipe StockTracking.recipe none is_new db =
    if is_new then err needs_recipe_error else ok tt
assert_valid_recipe StockTracking.recipe (some []) is_new db = err needs_recipe_error
assert_valid_recipe StockTracking.recipe (some (r ∷ rs)) is_new db =
    if count_in (material_ids (r ∷ rs)) db.raw_materials == length (r ∷ rs)
    then ok tt
    else err unknown_material_error

pub duplicate_barcode : Error
duplicate_barcode = http_error 409 (text "Another product already uses this barcode")

-- `rethrowDuplicateBarcode`
unfoldable pub rethrow_duplicate_barcode : Error → Error
unfolding duplicate_barcode
rethrow_duplicate_barcode unique_violation = duplicate_barcode
rethrow_duplicate_barcode e = e

abbrev pub rethrown : {A : Type 0} → Result A × Db → Result A × Db
rethrown (ok a, db) = (ok a, db)
rethrown (err e, db) = (err (rethrow_duplicate_barcode e), db)

-- Whether another row has the barcode; without one there is nothing to be unique.
unfoldable pub barcode_taken : ℕ → Option Text → Dict Product → Bool
barcode_taken id none ps = false
barcode_taken id (some b) [] = false
barcode_taken id (some b) ((i, p) ∷ ps) =
    (not (i == id) && has_barcode b p) || barcode_taken id (some b) ps

-- `product.create` and `product.update`: the row, if the unique column and the category allow it.
unfoldable pub save_row : ℕ → Product → Proc (Unit {0})
unfolding barcode_taken
save_row id p = do
  throw_if_state (λ db. barcode_taken id p.barcode db.products) unique_violation
  throw_if_state (λ db. not (is_some (lookup p.category_id db.categories))) foreign_key_violation
  write (λ db. record db { products = insert id p db.products })

-- Nothing is known of a serving.
abbrev pub no_nutrition : Nutrition
no_nutrition = record { calories = none; protein = none; carbs = none; sugar = none }

abbrev pub recipe_rows : StockTracking → Option (List RecipeItem) → List RecipeItem
recipe_rows StockTracking.unit r = []
recipe_rows StockTracking.recipe none = []
recipe_rows StockTracking.recipe (some rs) = rs

unfoldable pub new_product : ProductInput → StockTracking → Product
new_product i tracking = record {
  name = i.name;
  price = i.price;
  tracking = tracking;
  recipe_items = recipe_rows tracking i.recipe;
  prep_minutes = or_else i.prep_minutes 10;
  is_available = true;
  barcode = note_or_null i.barcode;
  category_id = i.category_id;
  description = i.description;
  icon = i.icon;
  cost = i.cost;
  ingredients = or_else i.ingredients [];
  allergens = or_else i.allergens [];
  nutrition = or_else i.nutrition no_nutrition;
}

abbrev pub counted : StockTracking → ℕ → ℕ
counted StockTracking.recipe qty = 0
counted StockTracking.unit qty = qty

-- A dish's own count stays 0.
abbrev pub new_stock : ProductInput → StockTracking → Inventory
new_stock i tracking = record {
  stock_qty = counted tracking i.stock_qty;
  min_stock_threshold = i.min_stock_threshold;
}

-- What the columns hold: `Decimal(10, 2)` in hundredths, and `Int`.
unfoldable pub fits_money : Option ℕ → Bool
fits_money none = true
fits_money (some c) = ltb c 10000000000

unfoldable pub fits_count : Option ℕ → Bool
fits_count none = true
fits_count (some n) = leb n 2147483647

abbrev pub input_fits : ProductInput → StockTracking → Bool
input_fits i tracking =
    fits_money (some i.price)
    && (fits_money i.cost
        && (fits_count (some (counted tracking i.stock_qty))
            && fits_count (some i.min_stock_threshold)))

abbrev pub change_fits : ProductChange → Bool
change_fits c = fits_money c.price && fits_money c.cost

abbrev pub counts_fit : ProductChange → Bool
counts_fit c = fits_count c.stock_qty && fits_count c.min_stock_threshold

-- A product and its inventory row, in one statement.
unfoldable pub insert_product : ℕ → ProductInput → StockTracking → Proc (Unit {0})
unfolding save_row new_product
insert_product id i tracking = do
  throw_if (not (input_fits i tracking)) value_out_of_range
  save_row id (new_product i tracking)
  write (λ db. record db { inventory = insert id (new_stock i tracking) db.inventory })

abbrev pub is_recipe : StockTracking → Bool
is_recipe StockTracking.recipe = true
is_recipe StockTracking.unit = false

abbrev pub refresh_if : Bool → ℕ → Proc (Unit {0})
refresh_if true id = refresh_availability (record { product_ids = id ∷ []; material_ids = [] })
refresh_if false id = pure tt

unfoldable pub create_product : ℕ → ProductInput → Proc (Option ProductDto)
unfolding insert_product assert_valid_recipe get_product_by_id
create_product id i = do
  (λ db. (assert_valid_recipe (or_else i.tracking StockTracking.unit) i.recipe true db, db))
  (λ db. rethrown (transaction (insert_product id i (or_else i.tracking StockTracking.unit)) db))
  refresh_if (is_recipe (or_else i.tracking StockTracking.unit)) id
  read (get_product_by_id id)

abbrev pub or_left : {A : Type 0} → Option A → Option A → Option A
or_left none old = old
or_left (some a) old = some a

-- `undefined` keeps the barcode, an empty one takes it away.
abbrev pub new_barcode : Option Text → Option Text → Option Text
new_barcode none old = old
new_barcode (some b) old = note_or_null (some b)

abbrev pub same_tracking : StockTracking → StockTracking → Bool
same_tracking StockTracking.unit StockTracking.unit = true
same_tracking StockTracking.recipe StockTracking.recipe = true
same_tracking _ _ = false

-- A switch to counting drops the recipe, and a saved recipe takes the old one's place.
unfoldable pub new_recipe :
    StockTracking → Bool → Option (List RecipeItem) → List RecipeItem → List RecipeItem
new_recipe StockTracking.unit switching r old = if switching then [] else old
new_recipe StockTracking.recipe switching none old = old
new_recipe StockTracking.recipe switching (some rs) old = rs

unfoldable pub changed_product : ProductChange → StockTracking → Product → Product
unfolding new_recipe
changed_product c tracking p = record {
  name = or_else c.name p.name;
  price = or_else c.price p.price;
  tracking = tracking;
  recipe_items =
      new_recipe tracking (not (same_tracking tracking p.tracking)) c.recipe p.recipe_items;
  prep_minutes = or_else c.prep_minutes p.prep_minutes;
  is_available = or_else c.is_available p.is_available;
  barcode = new_barcode c.barcode p.barcode;
  category_id = or_else c.category_id p.category_id;
  description = or_left c.description p.description;
  icon = or_left c.icon p.icon;
  cost = or_left c.cost p.cost;
  ingredients = or_else c.ingredients p.ingredients;
  allergens = or_else c.allergens p.allergens;
  nutrition = or_else c.nutrition p.nutrition;
}

abbrev pub count_change : ProductChange → StockChange
count_change c = record {
  set_qty = c.stock_qty;
  delta = none;
  min_stock_threshold = c.min_stock_threshold;
}

abbrev pub sets_count : StockTracking → ProductChange → Bool
sets_count tracking c =
    not (is_recipe tracking) && (is_some c.stock_qty || is_some c.min_stock_threshold)

-- The stock after an edit: a count goes the way of every other change of the stock, where the column
-- of a row that is found refuses one that is too large.
unfoldable pub settle_stock : ℕ → StockTracking → Bool → ProductChange → Proc (Unit {0})
settle_stock id tracking switching c = elim (sets_count tracking c) [
  | true ↦ (do
    throw_if_state (λ db. is_some (lookup id db.inventory) && not (counts_fit c)) value_out_of_range
    r ← apply_stock_change id (count_change c) false
    pure tt)
  | false ↦ refresh_if (switching || is_some c.recipe) id
]

-- An edit of the row that was found.
unfoldable pub update_found : ℕ → ProductChange → Product → StockTracking → Proc (Option ProductDto)
unfolding assert_valid_recipe save_row changed_product settle_stock get_product_by_id
update_found id c p tracking = do
  (λ db. (assert_valid_recipe tracking c.recipe (not (same_tracking tracking p.tracking)) db, db))
  throw_if (not (change_fits c)) value_out_of_range
  (λ db. rethrown (transaction (save_row id (changed_product c tracking p)) db))
  settle_stock id tracking (not (same_tracking tracking p.tracking)) c
  read (get_product_by_id id)

unfoldable pub update_product : ℕ → ProductChange → Proc (Option ProductDto)
unfolding product_not_found update_found
update_product id c = do
  p ← (λ db. or_throw (lookup id db.products) product_not_found db)
  update_found id c p (or_else c.tracking p.tracking)

abbrev pub is_ordered : ℕ → Dict OrderItem → Bool
is_ordered id items = any (λ (r : ℕ × OrderItem). r.1.product_id == id) items

abbrev pub without : {V : Type 0} → ℕ → Dict V → Dict V
without id [] = []
without id ((i, v) ∷ d) = if i == id then without id d else (i, v) ∷ without id d

-- `product.delete`: a product with orders is kept, and what hangs on it goes with it.
unfoldable pub delete_product : ℕ → Proc (Unit {0})
delete_product id = do
  p ← (λ db. or_throw (lookup id db.products) record_not_found db)
  throw_if_state (λ db. is_ordered id db.order_items) foreign_key_violation
  write (λ db. record db {
    products = without id db.products;
    images = without id db.images;
    inventory = without id db.inventory;
    stock_adjustments =
        keep (λ (a : StockAdjustment). not (a.product_id == id)) db.stock_adjustments;
  })
