-- ===== src/Menu.antt =====
-- The menu as it is shown (apps/api/src/modules/products/service.ts). The queries' orders by name
-- are left to the database.
use zak_s_sizzling.Prelude.{ℕ, Bool, Option, none, some, List, [], ◌∷◌, ◌++◌, if◌then◌else◌, map}
use zak_s_sizzling.Prelude.Text.{Text, text, text_eq, decimal}
use zak_s_sizzling.Prelude.Dict.{Dict, lookup}
use zak_s_sizzling.Stock.Needs.{servings_available}
use zak_s_sizzling.Stock.Deduct.{recipe_lines}
use zak_s_sizzling.Store.{
  Db, Product, Category, UserRole, Inventory, RecipeItem, StockTracking, ProductImage, Error,
  http_error,
}

unfoldable pub product_not_found : Error
product_not_found = http_error 404 (text "Product not found")

-- `updatedAt.getTime()` makes the address change with every new photo.
pub product_image_url : ℕ → ProductImage → Text
product_image_url id i =
    text "/api/products/" ++ (decimal id ++ (text "/image?v=" ++ decimal i.updated_at))

pub record ProductDto : Type 0 where
  pub id : ℕ
  pub row : Product
  pub category : Option Category
  pub image_url : Option Text
  pub stock_qty : Option ℕ
  pub min_stock_threshold : Option ℕ
  pub recipe : Option (List RecipeItem)
  pub cost : Option ℕ

abbrev stock_of : Option Inventory → Option ℕ
stock_of none = none
stock_of (some i) = some i.stock_qty

abbrev threshold_of : Option Inventory → Option ℕ
threshold_of none = none
threshold_of (some i) = some i.min_stock_threshold

abbrev url_of : ℕ → Option ProductImage → Option Text
url_of id none = none
url_of id (some i) = some (product_image_url id i)

-- A price of 0 is falsy only as a number: a stored 0 is a Decimal object, and stays.
pub to_product_dto : Db → ℕ × Product → ProductDto
unfolding product_image_url
to_product_dto db (id, p) = record {
  id = id;
  row = p;
  category = lookup p.category_id db.categories;
  image_url = url_of id (lookup id db.images);
  stock_qty = elim p.tracking [
    | StockTracking.recipe ↦
        some (servings_available (recipe_lines db.raw_materials p.recipe_items))
    | StockTracking.unit ↦ stock_of (lookup id db.inventory)
  ];
  min_stock_threshold = threshold_of (lookup id db.inventory);
  recipe = elim p.tracking [
    | StockTracking.recipe ↦ some p.recipe_items
    | StockTracking.unit ↦ none
  ];
  cost = p.cost;
}

-- What a role that is not the admin's, or no role, sees of a product.
pub with_admin_fields_for_role : Option UserRole → ProductDto → ProductDto
with_admin_fields_for_role (some UserRole.admin) d = d
with_admin_fields_for_role _ d = record d {
  row = record d.row { cost = none; recipe_items = [] };
  recipe = none;
  cost = none;
}

abbrev pub has_barcode : Text → Product → Bool
has_barcode b p = elim p.barcode [ none ↦ Bool.false | some c ↦ text_eq c b ]

-- `findUnique` by the barcode, whose column is unique.
unfoldable pub find_barcode : Text → Dict Product → Option (ℕ × Product)
find_barcode b [] = none
find_barcode b ((i, p) ∷ ps) = if has_barcode b p then some (i, p) else find_barcode b ps

abbrev dto_of : Db → Option (ℕ × Product) → Option ProductDto
dto_of db none = none
dto_of db (some r) = some (to_product_dto db r)

pub list_products : Db → List ProductDto
unfolding to_product_dto
list_products db = map (to_product_dto db) db.products

unfoldable pub get_product_by_id : ℕ → Db → Option ProductDto
unfolding to_product_dto
get_product_by_id id db = elim (lookup id db.products) [
  | none ↦ none
  | some p ↦ some (to_product_dto db (id, p))
]

pub get_product_by_barcode : Text → Db → Option ProductDto
unfolding to_product_dto find_barcode
get_product_by_barcode b db = dto_of db (find_barcode b db.products)
