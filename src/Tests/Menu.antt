-- ===== src/Tests/Menu.antt =====
-- Sample changes of the menu.
use zak_s_sizzling.Prelude.{
  ℕ, ◌⊎◌, ◌≡◌, refl, false, none, some, List, [], ◌∷◌, arith, Bool-cases, inl, inr, map,
  if◌then◌else◌, ◌==◌,
}
use zak_s_sizzling.Prelude.Text.{Text, text}
use zak_s_sizzling.Prelude.Dict.{lookup}
use zak_s_sizzling.Store.{Db, Product, StockTracking, ok}
use zak_s_sizzling.Categories.{
  CategoryChange, CategoryDto, reorder_categories, list_categories, to_category_dto, product_count,
  update_category, changed_category, check_new_name, clash, assert_name_free, delete_category,
}
use zak_s_sizzling.Categories.Names.{
  DistinctNames, update_category-DistinctNames, HasCategories, delete_category-HasCategories,
}
use zak_s_sizzling.Categories.Rail.Listed.{reorder_categories-listed}
use zak_s_sizzling.Products.{barcode_taken, ProductChange, update_product}
use zak_s_sizzling.Products.Recipes.{ValidRecipes}
use zak_s_sizzling.Products.Recipes.Kept.{update_product-ValidRecipes}
use zak_s_sizzling.Products.Barcodes.{DistinctBarcodes}
use zak_s_sizzling.Tests.Sample.{kiosk, sisig, tapsilog}

abbrev swapped : List CategoryDto × Db
swapped = (
  list_categories (reorder_categories (2 ∷ 1 ∷ []) kiosk).1,
  (reorder_categories (2 ∷ 1 ∷ []) kiosk).1,
)

swapped_run : reorder_categories (2 ∷ 1 ∷ []) kiosk ≡ (ok swapped.0, swapped.1)
unfolding reorder_categories list_categories
swapped_run = refl

reorder_categories-listed_example : map (λ (d : CategoryDto). d.id) swapped.0 ≡ 2 ∷ 1 ∷ []
reorder_categories-listed_example =
    reorder_categories-listed (2 ∷ 1 ∷ []) kiosk swapped.1 swapped.0 (refl, (refl, tt)) swapped_run

abbrev exact : Text → Text
exact t = t

abbrev rename : CategoryChange
rename = record { name = some (text "Rice meals"); icon = none; is_new = none }

kiosk-DistinctNames : DistinctNames exact kiosk.categories
unfolding text
kiosk-DistinctNames i j c d p q s = ground arith

abbrev renamed : Db
renamed = (update_category exact 1 rename kiosk).1

abbrev renamed_dto : CategoryDto
renamed_dto = to_category_dto renamed (
  1,
  changed_category rename
      (record { name = text "Meals"; icon = none; sort_order = 1; is_new = false }),
)

renamed_run : update_category exact 1 rename kiosk ≡ (ok renamed_dto, renamed)
unfolding update_category check_new_name assert_name_free clash text
renamed_run = refl

update_category-DistinctNames_example : DistinctNames exact renamed.categories
update_category-DistinctNames_example =
    update_category-DistinctNames exact 1 rename kiosk renamed renamed_dto kiosk-DistinctNames
      renamed_run

-- What is on the kiosk's menu.
menu_of : (i : ℕ) (p : Product) → lookup i kiosk.products ≡ some p → (p ≡ sisig) ⊎ (p ≡ tapsilog)
menu_of i p l = elim (Bool-cases (1 == i)) [
  | inl e ↦ inl (ground (arith, e))
  | inr e ↦ elim (Bool-cases (2 == i)) [
    | inl f ↦ inr (ground (arith, e, f))
    | inr f ↦ ground (arith, e, f)
  ]
]

kiosk-HasCategories : HasCategories kiosk
kiosk-HasCategories i p l = elim (menu_of i p l) [
  | inl e ↦ rw e (record { name = text "Meals"; icon = none; sort_order = 1; is_new = false }, refl)
  | inr e ↦ rw e (record { name = text "Meals"; icon = none; sort_order = 1; is_new = false }, refl)
]

abbrev dry : Db
dry = (delete_category 2 kiosk).1

dry_run : delete_category 2 kiosk ≡ (ok tt, dry)
unfolding delete_category product_count
dry_run = refl

delete_category-HasCategories_example :
    HasCategories dry
    × (lookup 1 dry.categories ≡ (if 2 == 1 then none else lookup 1 kiosk.categories))
    × (product_count 2 kiosk ≡ 0)
    × (dry ≡ record kiosk { categories = dry.categories; events = dry.events })
delete_category-HasCategories_example =
    delete_category-HasCategories 2 1 kiosk dry kiosk-HasCategories dry_run

abbrev pub no_change : ProductChange
no_change = record {
  name = none;
  price = none;
  cost = none;
  barcode = none;
  category_id = none;
  description = none;
  icon = none;
  is_available = none;
  stock_qty = none;
  min_stock_threshold = none;
  tracking = none;
  recipe = none;
  prep_minutes = none;
  ingredients = none;
  allergens = none;
  nutrition = none;
}

-- The counted dish becomes one that is made from rice.
abbrev from_rice : ProductChange
from_rice = record no_change {
  tracking = some StockTracking.recipe;
  recipe = some (record { raw_material_id = 1; qty_per_serving = 150 } ∷ []);
}

kiosk-ValidRecipes : ValidRecipes kiosk
kiosk-ValidRecipes = record {
  products_distinct = (refl, (refl, tt));
  materials_distinct = (refl, tt);
  recipes = λ i p l. elim (menu_of i p l) [
    | inl e ↦ rw e refl
    | inr e ↦ rw e (λ n. cc, λ j m. ground arith)
  ];
}

update_product-ValidRecipes_example : ValidRecipes (update_product 1 from_rice kiosk).1
update_product-ValidRecipes_example =
    update_product-ValidRecipes 1 from_rice kiosk kiosk-ValidRecipes

-- The counted dish has a barcode.
abbrev coded : Product
coded = record sisig { barcode = some (text "4799") }

abbrev pub labelled : Db
labelled = record kiosk {
  products = (1, coded) ∷ (2, tapsilog) ∷ [];
  inventory =
      (1, record { stock_qty = 10; min_stock_threshold = 2 })
      ∷ (2, record { stock_qty = 0; min_stock_threshold = 0 })
      ∷ [];
}

pub labelled_menu :
    (i : ℕ) (p : Product)
    → lookup i labelled.products ≡ some p
    → ((i ≡ 1) × (p ≡ coded)) ⊎ ((i ≡ 2) × (p ≡ tapsilog))
labelled_menu i p l = elim (Bool-cases (1 == i)) [
  | inl e ↦ inl (ground (arith, e), ground (arith, e))
  | inr e ↦ elim (Bool-cases (2 == i)) [
    | inl f ↦ inr (ground (arith, e, f), ground (arith, e, f))
    | inr f ↦ ground (arith, e, f)
  ]
]

pub labelled-DistinctBarcodes : DistinctBarcodes labelled.products
unfolding barcode_taken text
labelled-DistinctBarcodes i p l = elim (labelled_menu i p l) [
  | inl (j, e) ↦ rw (j, e) refl
  | inr (j, e) ↦ rw (j, e) refl
]
