-- ===== src/Products/Import.antt =====
-- Importing products from a file (apps/api/src/modules/products/bulkImport.ts). `number` is
-- JavaScript's `Number` on a text and `lower_case` its `toLowerCase`; `fresh` draws a new id, and
-- `message_of` is what an error says of itself.
pub mod Run
pub mod Stocks
pub mod Saves
pub mod Rows
pub mod Preview
use zak_s_sizzling.Prelude.{
  ℕ, ◌+◌, Bool, true, false, not, ◌&&◌, ◌||◌, Option, none, some, List, [], ◌∷◌, ◌++◌, ltb,
  if◌then◌else◌, is_some, or_else, length, any,
}
use zak_s_sizzling.Prelude.Text.{Text, text, text_eq}
use zak_s_sizzling.Prelude.Dict.{Dict}
use zak_s_sizzling.Csv.{Row, trim}
use zak_s_sizzling.Store.{Db, Product, Category, Error, Result, ok, err, Proc}
use zak_s_sizzling.Products.{ProductInput, ProductChange, create_product, update_product}

-- A number of the file: what the decimal column keeps of it, in hundredths, and the whole number
-- that it is, if it is one.
pub data JsNumber : Type 0 where
  not_a_number : JsNumber
  negative : JsNumber
  amount : (cents : ℕ) → (whole : Option ℕ) → JsNumber

-- A value of an object that was made from the header and a line: the last one counts.
unfoldable pub field : Text → Row → Option Text
field k [] = none
field k ((h, v) ∷ r) =
    let rest = field k r in if is_some rest then rest else if text_eq h k then some v else none

abbrev pub or_empty : Option Text → Text
or_empty none = []
or_empty (some t) = t

-- `value?.trim() || undefined`
abbrev pub filled : Text → Option Text
filled [] = none
filled (c ∷ cs) = some (c ∷ cs)

pub record ValidRow : Type 0 where
  pub name : Text
  pub barcode : Option Text
  pub category_id : ℕ
  pub price : ℕ
  pub cost : Option ℕ
  pub stock_qty : Option ℕ
  pub min_stock_threshold : Option ℕ
  pub description : Option Text

pub data Checked : Type 0 where
  valid : ValidRow → Checked
  refused : (error : Text) → (name : Option Text) → Checked

-- What a number must be: an amount, or a count; an empty cell is no number.
abbrev pub is_bad : Option JsNumber → Bool
is_bad none = false
is_bad (some not_a_number) = true
is_bad (some negative) = true
is_bad (some (amount c w)) = false

abbrev pub is_nan : Option JsNumber → Bool
is_nan (some not_a_number) = true
is_nan _ = false

abbrev pub is_count : Option JsNumber → Bool
is_count none = true
is_count (some (amount c w)) = is_some w
is_count (some negative) = false
is_count (some not_a_number) = false

abbrev pub cents_of : Option JsNumber → Option ℕ
cents_of (some (amount c w)) = some c
cents_of _ = none

abbrev pub whole_of : Option JsNumber → Option ℕ
whole_of (some (amount c w)) = w
whole_of _ = none

abbrev pub price_error : Text
price_error = text "Price is required and must be a number"

pub data RowStatus : Type 0 where
  created updated error : RowStatus

pub record RowResult : Type 0 where
  pub row : ℕ
  pub status : RowStatus
  pub name : Option Text
  pub message : Option Text

-- The loop's variables.
pub record Progress : Type 0 where
  pub in_file : List Text
  pub results : List RowResult
  pub created : ℕ
  pub updated : ℕ
  pub errors : ℕ

abbrev pub no_progress : Progress
no_progress = record { in_file = []; results = []; created = 0; updated = 0; errors = 0 }

pub record Summary : Type 0 where
  pub total : ℕ
  pub created : ℕ
  pub updated : ℕ
  pub errors : ℕ
  pub dry_run : Bool
  pub results : List RowResult
