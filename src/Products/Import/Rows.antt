-- ===== src/Products/Import/Rows.antt =====
-- What a row that passes its checks is like.
use zak_s_sizzling.Products.Import.Run.{category_named, category_of, check_numbers, check_row}
use zak_s_sizzling.Csv.{trim, Row}
use zak_s_sizzling.Prelude.Text.{text, Text}
use zak_s_sizzling.Products.Import.{field, or_empty, JsNumber, valid, filled, ValidRow}
use zak_s_sizzling.Prelude.{
  ℕ, ◌≡◌, refl, true, Option, none, some, [], ◌∷◌, arith, is_some, Option-cases, inl, inr,
}
use zak_s_sizzling.Prelude.Dict.{Dict, lookup}
use zak_s_sizzling.Inventory.{note_or_null}
use zak_s_sizzling.Store.{Category}

filled_plain : (t : Text) → note_or_null (filled t) ≡ filled t
filled_plain [] = refl
filled_plain (c ∷ cs) = refl

module _ (number : Text → JsNumber) (lower_case : Text → Text) where
  category_named-lookup :
      (name : Text) (i : ℕ) (cs : Dict Category)
      → category_named number lower_case name cs ≡ some i
      → is_some (lookup i cs) ≡ true
  unfolding category_named
  category_named-lookup name i [] h = cc
  category_named-lookup name i ((j, c) ∷ cs) h = ground (arith, category_named-lookup name i cs)

  check_numbers-valid :
      (r : Row) (name : Text) (category : ℕ) (v : ValidRow)
      → check_numbers number lower_case r name category ≡ valid v
      → (note_or_null v.barcode ≡ v.barcode) × (v.category_id ≡ category)
  unfolding check_numbers
  check_numbers-valid r name category v h =
      (ground (arith, filled_plain (trim (or_empty (field (text "barcode") r)))), ground arith)

  category_of-lookup :
      (t : Option Text) (i : ℕ) (cs : Dict Category)
      → category_of number lower_case t cs ≡ some i
      → is_some (lookup i cs) ≡ true
  category_of-lookup none i cs h = cc
  category_of-lookup (some []) i cs h = cc
  category_of-lookup (some (c ∷ t)) i cs h =
      category_named-lookup (lower_case (trim (c ∷ t))) i cs h

  -- A row that passes is in a category that there is.
  pub check_row-valid :
      (r : Row) (cs : Dict Category) (v : ValidRow)
      → check_row number lower_case r cs ≡ valid v
      → (note_or_null v.barcode ≡ v.barcode) × (is_some (lookup v.category_id cs) ≡ true)
  unfolding check_row
  check_row-valid r cs v h =
      let t = field (text "category") r in
      let name = trim (or_empty (field (text "name") r)) in
      elim (Option-cases (category_of number lower_case t cs)) [
        | inl e ↦ ground (arith, e)
        | inr (i, e) ↦
            let numbers : check_numbers number lower_case r name i ≡ valid v = ground (arith, e) in
            let (plain, same) = check_numbers-valid r name i v numbers in
            (plain, ground (arith, same, category_of-lookup t i cs e))
      ]
