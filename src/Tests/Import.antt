-- ===== src/Tests/Import.antt =====
-- A sample import: a new dish, a row without a price, and a new price for a dish with a barcode.
use zak_s_sizzling.Prelude.{
  ℕ, ◌+◌, ◌-◌, ◌*◌, ◌<◌, ◌≡◌, refl, sym, ap, ◌∙◌, Bool, true, false, ◌&&◌, none, some, List, [],
  ◌∷◌, leb, max, arith, every, if◌then◌else◌, inl, inr,
}
use zak_s_sizzling.Prelude.Text.{Text, text}
use zak_s_sizzling.Prelude.Dict.{Dict, lookup}
use zak_s_sizzling.Csv.{Row, trim}
use zak_s_sizzling.Store.{Db, Product, Error}
use zak_s_sizzling.Products.Import.{
  JsNumber, not_a_number, amount, field, Checked, valid, refused, ValidRow,
}
use zak_s_sizzling.Products.Import.Run.{
  bulk_import_products, check_row, check_numbers, parse_number, category_named,
}
use zak_s_sizzling.Products.Import.Saves.{row_fits}
use zak_s_sizzling.Products.{fits_money, fits_count}
use zak_s_sizzling.Products.Import.Stocks.{Ready}
use zak_s_sizzling.Products.Import.Preview.{bulk_import_products-preview, AllFit, FitsColumns}
use zak_s_sizzling.Tests.Menu.{labelled, labelled_menu, labelled-DistinctBarcodes}

abbrev value_from : ℕ → Text → ℕ
value_from n [] = n
value_from n (c ∷ t) = value_from (10 * n + (c - b'0')) t

-- Whole numbers only.
abbrev number : Text → JsNumber
number t =
    if every (λ c. leb b'0' c && leb c b'9') t
    then amount (100 * value_from 0 t) (some (value_from 0 t))
    else not_a_number

abbrev exact : Text → Text
exact t = t

abbrev max_id : Dict Product → ℕ
max_id [] = 0
max_id ((i, p) ∷ ps) = max i (max_id ps)

abbrev next_id : Db → ℕ
next_id db = max_id db.products + 1

above_all : (k : ℕ) (ps : Dict Product) → max_id ps < k → lookup k ps ≡ none
above_all k [] h = refl
above_all k ((i, p) ∷ ps) h = ground (arith, above_all k ps)

next_id-new : (db : Db) → lookup (next_id db) db.products ≡ none
next_id-new db = above_all (next_id db) db.products (omega arith)

abbrev no_message : Error → Text
no_message e = text "Import failed"

abbrev row : Text → Text → Text → Row
row name price barcode =
    (text "name", name)
    ∷ (text "category", text "Meals")
    ∷ (text "price", price)
    ∷ (text "barcode", barcode)
    ∷ []

abbrev rows : List Row
rows =
    row (text "Lugaw") (text "60") []
    ∷ row (text "Halo-halo") [] []
    ∷ row (text "Sisig") (text "160") (text "4799")
    ∷ []

labelled-Ready : Ready labelled
labelled-Ready = record {
  distinct = (refl, (refl, tt));
  barcodes = labelled-DistinctBarcodes;
  stocked = λ i p l. elim (labelled_menu i p l) [ inl (j, e) ↦ rw j refl | inr (j, e) ↦ rw j refl ];
}

abbrev checked_fits : Checked → Bool
checked_fits (refused e name) = true
checked_fits (valid v) = row_fits v

checked_fits-valid :
    (c : Checked) → checked_fits c ≡ true → (v : ValidRow) → c ≡ valid v → row_fits v ≡ true
checked_fits-valid c k v h = sym (ap checked_fits h) ∙ k

rows-AllFit : AllFit number exact labelled.categories rows
unfolding AllFit FitsColumns check_row check_numbers parse_number category_named field row_fits
    fits_money fits_count trim text
rows-AllFit = (
  checked_fits-valid
      (check_row number exact (row (text "Lugaw") (text "60") []) labelled.categories) refl,
  (
    checked_fits-valid (check_row number exact (row (text "Halo-halo") [] []) labelled.categories)
        refl,
    (
      checked_fits-valid
          (check_row number exact (row (text "Sisig") (text "160") (text "4799"))
            labelled.categories)
          refl,
      tt,
    ),
  ),
)

bulk_import_products-preview_example :
    let shown = bulk_import_products number exact next_id no_message true rows labelled in
    let imported = bulk_import_products number exact next_id no_message false rows labelled in
    (shown.1 ≡ labelled)
    × (imported.0.results ≡ shown.0.results)
    × (imported.0.created ≡ shown.0.created)
    × (imported.0.updated ≡ shown.0.updated)
    × (imported.0.errors ≡ shown.0.errors)
bulk_import_products-preview_example =
    bulk_import_products-preview number exact next_id no_message next_id-new rows labelled
      labelled-Ready rows-AllFit
