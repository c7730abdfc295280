-- ===== src/Tests/Guards.antt =====
-- Sample sign-ins, limits and stock changes.
use zak_s_sizzling.Login.{
  ended, max_wrong_codes, User, LoginCode, Accounts, Challenge, verify_challenge,
}
use zak_s_sizzling.Csv.{headers_of, needs_quotes, value_of, Row, from_csv, to_csv, trim}
use zak_s_sizzling.Csv.Rows.{HasFields, IsTrimmed, Kept, from_csv-to_csv, values}
use zak_s_sizzling.RateLimit.Window.{let_through, let_through_lem}
use zak_s_sizzling.Prelude.{
  All, any, map, ℕ, ◌≡◌, ◌+◌, refl, Bool, false, none, some, [], ◌∷◌, ◌++◌, arith, ltb,
}
use zak_s_sizzling.Login.Tries.{TriedAtMost, verify_challenge-TriedAtMost, verify_challenge-used}
use zak_s_sizzling.Prelude.Dict.{lookup}
use zak_s_sizzling.Prelude.Int.{neg_part, pos_part}
use zak_s_sizzling.Prelude.Text.{text, text_eq}
use zak_s_sizzling.RawMaterials.{
  logged_previous, MaterialChange, set_qty, changed, change_row, adjust_raw_material_stock,
  adjust_in_transaction,
}
use zak_s_sizzling.RawMaterials.Adjusted.{IsChanged, adjust_raw_material_stock-logged}
use zak_s_sizzling.Stock.Refresh.{refresh_availability}
use zak_s_sizzling.Store.{Movement, UserRole, AdjustmentReason, Db, RawMaterial, ok, err}
use zak_s_sizzling.Tests.Sample.{kiosk}
use zak_s_sizzling.RateLimit.{Limiter}

abbrev busy : Limiter
busy = record { entries = (4, record { id = 0; count = 2; reset_at = 900 }) ∷ []; next_id = 1 }

let_through_lem_example : let_through 1000 4 4 (500 ∷ 600 ∷ 700 ∷ []) busy ≡ 2
let_through_lem_example =
    let_through_lem 1000 4 4 (record { id = 0; count = 2; reset_at = 900 }) (500 ∷ 600 ∷ 700 ∷ [])
      busy refl (omega arith, (omega arith, (omega arith, tt)))

abbrev maria : User
maria = record {
  email = text "maria@zak.ph";
  name = text "Maria";
  is_active = Bool.true;
  role = UserRole.admin;
  password_hash = 5 ∷ [];
  created_at = 0;
}

abbrev row : LoginCode
row = record {
  user_id = 1;
  code_hash = 7 ∷ [];
  attempts = 0;
  sends = 1;
  sent_at = 0;
  expires_at = 600000;
  used_at = none;
  revoked_at = none;
  created_at = 0;
}

abbrev accounts : Accounts
accounts = record { users = (1, maria) ∷ []; codes = (3, row) ∷ [] }

abbrev challenge : Challenge
challenge = record { id = 3; code = row; user = maria }

abbrev signed_in : Accounts
signed_in = (verify_challenge text_eq 100 challenge (7 ∷ []) accounts).1

sign_in_run : verify_challenge text_eq 100 challenge (7 ∷ []) accounts ≡ (ok maria, signed_in)
unfolding verify_challenge
sign_in_run = refl

verify_challenge-used_example :
    verify_challenge text_eq 200 challenge (7 ∷ []) signed_in ≡ (err ended, signed_in)
verify_challenge-used_example =
    (verify_challenge-used text_eq 100 200 challenge challenge (7 ∷ []) (7 ∷ []) maria accounts
      signed_in sign_in_run refl).3

verify_challenge-TriedAtMost_example :
    TriedAtMost max_wrong_codes
      (lookup 3 (verify_challenge text_eq 100 challenge (8 ∷ []) accounts).1.codes)
verify_challenge-TriedAtMost_example =
    verify_challenge-TriedAtMost text_eq 100 challenge (8 ∷ []) 3 accounts (omega arith)

abbrev spoiled : MaterialChange
spoiled = record { amount = set_qty 500000; reason = AdjustmentReason.spoilage; note = none }

abbrev spoiled_db : Db
spoiled_db = (adjust_raw_material_stock 1 spoiled 3 kiosk).1

spoiled_run : adjust_raw_material_stock 1 spoiled 3 kiosk ≡ (ok tt, spoiled_db)
unfolding adjust_raw_material_stock adjust_in_transaction changed logged_previous change_row
    refresh_availability
spoiled_run = refl

adjust_raw_material_stock-logged_example :
    (m : RawMaterial) × (new : ℕ) × (row : Movement) × (lookup 1 kiosk.raw_materials ≡ some m)
    × IsChanged (set_qty 500000) m.stock_qty new
    × (ltb m.stock_qty new ≡ false)
    × (lookup 1 spoiled_db.raw_materials ≡ some (record m { stock_qty = new }))
    × (spoiled_db.movements ≡ [] ++ row ∷ [])
    × (row.raw_material_id ≡ 1)
    × (row.previous_qty ≡ m.stock_qty)
    × (row.new_qty ≡ new)
    × (m.stock_qty + pos_part row.delta ≡ new + neg_part row.delta)
adjust_raw_material_stock-logged_example =
    adjust_raw_material_stock-logged 1 spoiled 3 kiosk spoiled_db 1 spoiled_run

abbrev price_list : Row
price_list = (99 ∷ [], 44 ∷ 34 ∷ []) ∷ []

price_headers : All (λ h. any needs_quotes h ≡ false) (headers_of price_list)
unfolding headers_of
price_headers = (refl, tt)

price_rows :
    All Kept (headers_of price_list ∷ map (values (headers_of price_list)) (price_list ∷ []))
unfolding headers_of value_of
price_rows = ((refl, (refl, tt)), ((refl, (refl, tt)), tt))

price_fields : All (HasFields (headers_of price_list)) (price_list ∷ [])
unfolding headers_of value_of
price_fields = (refl, tt)

price-IsTrimmed :
    All IsTrimmed (headers_of price_list)
    × All (All IsTrimmed) (map (values (headers_of price_list)) (price_list ∷ []))
unfolding headers_of value_of trim
price-IsTrimmed = ((refl, tt), ((refl, tt), tt))

from_csv-to_csv_example : from_csv (to_csv (price_list ∷ [])) ≡ price_list ∷ []
from_csv-to_csv_example =
    from_csv-to_csv price_list [] price_fields price_headers price-IsTrimmed.0 price-IsTrimmed.1
      price_rows
