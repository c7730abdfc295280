-- ===== src/Products/Import/Run.antt =====
-- The loop over a file's rows (apps/api/src/modules/products/bulkImport.ts). `fresh` draws a new id,
-- and `message_of` is what an error says of itself.
use zak_s_sizzling.Menu.{ProductDto, find_barcode}
use zak_s_sizzling.Products.Import.{
  Checked, JsNumber, Progress, RowResult, RowStatus, Summary, ValidRow, cents_of, field, filled,
  is_bad, is_count, is_nan, no_progress, or_empty, price_error, whole_of, refused, valid,
}
use zak_s_sizzling.Prelude.{
  ℕ, ◌+◌, Bool, true, false, not, ◌||◌, Option, none, some, List, [], ◌∷◌, ◌++◌, ltb, if◌then◌else◌,
  is_some, or_else, length, any,
}
use zak_s_sizzling.Prelude.Text.{Text, text, text_eq}
use zak_s_sizzling.Prelude.Dict.{Dict}
use zak_s_sizzling.Csv.{Row, trim}
use zak_s_sizzling.Store.{Db, Product, Category, Error, Result, ok, err}
use zak_s_sizzling.Products.{ProductInput, ProductChange, create_product, update_product}

abbrev pub add_result : RowResult → Progress → Progress
add_result r s = elim r.status [
  | RowStatus.created ↦ record s { results = s.results ++ r ∷ []; created = s.created + 1 }
  | RowStatus.updated ↦ record s { results = s.results ++ r ∷ []; updated = s.updated + 1 }
  | RowStatus.error ↦ record s { results = s.results ++ r ∷ []; errors = s.errors + 1 }
]

abbrev pub done : ℕ → RowStatus → Text → RowResult
done n status name = record { row = n; status = status; name = some name; message = none }

abbrev pub failed : ℕ → Option Text → Text → RowResult
failed n name message = record {
  row = n;
  status = RowStatus.error;
  name = name;
  message = some message;
}

abbrev pub existing_of : Option Text → Db → Option (ℕ × Product)
existing_of none db = none
existing_of (some b) db = find_barcode b db.products

abbrev pub is_in_file : Option Text → List Text → Bool
is_in_file none seen = false
is_in_file (some b) seen = any (λ c. text_eq c b) seen

abbrev pub remember : Option Text → Progress → Progress
remember none s = s
remember (some b) s = record s { in_file = b ∷ s.in_file }

abbrev pub row_change : ValidRow → ProductChange
row_change r = record {
  name = some r.name;
  price = some r.price;
  cost = r.cost;
  barcode = none;
  category_id = some r.category_id;
  description = r.description;
  icon = none;
  is_available = none;
  stock_qty = r.stock_qty;
  min_stock_threshold = r.min_stock_threshold;
  tracking = none;
  recipe = none;
  prep_minutes = none;
  ingredients = none;
  allergens = none;
  nutrition = none;
}

abbrev pub row_input : ValidRow → ProductInput
row_input r = record {
  name = r.name;
  price = r.price;
  cost = r.cost;
  barcode = r.barcode;
  category_id = r.category_id;
  description = r.description;
  icon = none;
  stock_qty = or_else r.stock_qty 0;
  min_stock_threshold = or_else r.min_stock_threshold 5;
  tracking = none;
  recipe = none;
  prep_minutes = none;
  ingredients = none;
  allergens = none;
  nutrition = none;
}

abbrev pub status_of : Bool → RowStatus
status_of true = RowStatus.updated
status_of false = RowStatus.created

module _ (number : Text → JsNumber) (lower_case : Text → Text) where
  unfoldable pub parse_number : Option Text → Option JsNumber
  parse_number none = none
  parse_number (some t) = elim (trim t) [ [] ↦ none | c ∷ cs ↦ some (number t) ]

  -- The map by name without capitals: of two categories with one name the later stays.
  unfoldable pub category_named : Text → Dict Category → Option ℕ
  category_named name [] = none
  category_named name ((i, c) ∷ cs) =
      let rest = category_named name cs in
      if is_some rest then rest else if text_eq (lower_case c.name) name then some i else none

  abbrev pub category_of : Option Text → Dict Category → Option ℕ
  category_of none cs = none
  category_of (some []) cs = none
  category_of (some (c ∷ t)) cs = category_named (lower_case (trim (c ∷ t))) cs

  -- The checks after the category.
  unfoldable pub check_numbers : Row → Text → ℕ → Checked
  unfolding parse_number
  check_numbers r name category =
      let price = parse_number (field (text "price") r) in
      let cost = parse_number (field (text "cost") r) in
      let qty = parse_number (field (text "stockQty") r) in
      let threshold = parse_number (field (text "minStockThreshold") r) in
      let barcode = filled (trim (or_empty (field (text "barcode") r))) in
      if is_bad price || not (is_some price)
      then refused price_error (some name)
      else if is_bad cost
      then refused (text "Cost must be a number of 0 or more if provided") (some name)
      else if is_nan qty || is_nan threshold
      then refused (text "Stock quantities must be numbers if provided") (some name)
      else if not (is_count qty) || not (is_count threshold)
      then refused (text "Stock quantities must be whole numbers of 0 or more") (some name)
      else if ltb 64 (length (or_empty barcode))
      then refused (text "Barcode is longer than 64 characters") (some name)
      else valid (record {
        name = name;
        barcode = barcode;
        category_id = category;
        price = or_else (cents_of price) 0;
        cost = cents_of cost;
        stock_qty = whole_of qty;
        min_stock_threshold = whole_of threshold;
        description = filled (or_empty (field (text "description") r));
      })

  unfoldable pub check_row : Row → Dict Category → Checked
  unfolding check_numbers
  check_row r cs =
      let name = trim (or_empty (field (text "name") r)) in
      let category = field (text "category") r in
      if not (is_some (filled name))
      then refused (text "Missing product name") none
      else if ltb 150 (length name)
      then refused (text "Product name is longer than 150 characters") (some name)
      else elim (category_of category cs) [
        | none ↦
            refused (text "Unknown category \"" ++ (or_empty category ++ text "\"")) (some name)
        | some id ↦ check_numbers r name id
      ]

  module _ (fresh : Db → ℕ) (message_of : Error → Text) where
    abbrev pub outcome : ℕ → RowStatus → Text → Result (Option ProductDto) → RowResult
    outcome n status name (ok d) = done n status name
    outcome n status name (err e) = failed n (some name) (message_of e)

    -- Saving a row that was checked.
    unfoldable pub save_checked : ℕ → ValidRow → Db → RowResult × Db
    save_checked n r db = elim (existing_of r.barcode db) [
      | some (id, p) ↦
          let (answer, db') = update_product id (row_change r) db in
          (outcome n RowStatus.updated r.name answer, db')
      | none ↦
          let (answer, db') = create_product (fresh db) (row_input r) db in
          (outcome n RowStatus.created r.name answer, db')
    ]

    -- One row, whose number is that of its line.
    unfoldable pub import_row : Bool → Dict Category → ℕ → Row → Progress × Db → Progress × Db
    unfolding check_row save_checked
    import_row dry cs n r (s, db) = elim (check_row r cs) [
      | refused e name ↦ (add_result (failed n name e) s, db)
      | valid v ↦ elim dry [
        | true ↦ (
          add_result
              (done n
                (status_of (is_some (existing_of v.barcode db) || is_in_file v.barcode s.in_file))
                v.name)
              (remember v.barcode s),
          db,
        )
        | false ↦
            let (result, db') = save_checked n v db in
            (add_result result (remember v.barcode s), db')
      ]
    ]

    unfoldable pub import_loop : Bool → Dict Category → ℕ → List Row → Progress × Db → Progress × Db
    unfolding import_row
    import_loop dry cs n [] s = s
    import_loop dry cs n (r ∷ rs) s = import_loop dry cs (n + 1) rs (import_row dry cs n r s)

    -- The first line of the file is the header, so the first row is line 2.
    unfoldable pub bulk_import_products : Bool → List Row → Db → Summary × Db
    unfolding import_loop
    bulk_import_products dry rows db =
        let (s, db') = import_loop dry db.categories 2 rows (no_progress, db) in
        (
          record {
            total = length rows;
            created = s.created;
            updated = s.updated;
            errors = s.errors;
            dry_run = dry;
            results = s.results;
          },
          db',
        )
