-- ===== src/RawMaterials.antt =====
-- Restocking and correcting raw materials: `adjustRawMaterialStock` of
-- apps/api/src/modules/raw-materials/service.ts. Quantities are thousandths; the input, which
-- the source rounds to them, is in millionths.
pub mod Adjusted
use zak_s_sizzling.Prelude.{
  ℕ, ◌+◌, ◌-◌, ◌*◌, ◌/◌, Bool, true, false, not, ◌&&◌, Option, none, some, List, [], ◌∷◌, ◌++◌,
  ◌==◌, ltb, leb, if◌then◌else◌, is_some, or_else,
}
use zak_s_sizzling.Prelude.Int.{ℤ, pos, pos_part, neg_part, sub_ℕ, is_negative}
use zak_s_sizzling.Prelude.Text.{Text, text}
use zak_s_sizzling.Prelude.Dict.{Dict, lookup, insert}
use zak_s_sizzling.Store.{
  Db, RawMaterial, Movement, MovementType, AdjustmentReason, Error, http_error, Result, ok, err,
  Proc, pure, or_throw, transaction, settle, continue, ◌>>=◌, ◌>>◌,
}
use zak_s_sizzling.Stock.Deduct.{decimal_text, unit_text}
use zak_s_sizzling.Stock.Refresh.{refresh_availability}
use zak_s_sizzling.Inventory.{is_decrease_only, decrease_only_error, note_or_null}

-- Either a count or a difference: the request's schema asks for exactly one.
pub data Amount : Type 0 where
  set_qty : ℕ → Amount
  add_qty : ℤ → Amount

pub record MaterialChange : Type 0 where
  pub amount : Amount
  pub reason : AdjustmentReason
  pub note : Option Text

pub material_not_found : Error
material_not_found = http_error 404 (text "Raw material not found")

pub not_enough_material : RawMaterial → Error
not_enough_material m = http_error 409 (
    text "Not enough stock for this change — only "
    ++ (decimal_text m.stock_qty ++ (text " " ++ (unit_text m.unit ++ text " left"))))

-- `decimal`: the nearest thousandth.
abbrev pub thousandths : ℕ → ℕ
thousandths n = (n + 500) / 1000

-- The input is compared before it is rounded.
abbrev pub lowers : Amount → ℕ → Bool
lowers (set_qty q) current = ltb q (1000 * current)
lowers (add_qty d) current = is_negative d

-- The new quantity, if the stock covers the change.
unfoldable pub changed : Amount → ℕ → Option ℕ
changed (set_qty q) current = some (thousandths q)
changed (add_qty d) current =
    if leb (thousandths (neg_part d)) current
    then some (current + thousandths (pos_part d) - thousandths (neg_part d))
    else none

-- What the log calls the quantity before the change.
unfoldable pub logged_previous : Amount → ℕ → ℕ → ℕ
logged_previous (set_qty q) current new = current
logged_previous (add_qty d) current new = new + thousandths (neg_part d) - thousandths (pos_part d)

abbrev pub movement_type : AdjustmentReason → MovementType
movement_type AdjustmentReason.restock = MovementType.restock
movement_type _ = MovementType.adjustment

unfoldable pub change_row : ℕ → MaterialChange → ℕ → ℕ → ℕ → Movement
change_row id c previous new by = record {
  raw_material_id = id;
  delta = sub_ℕ new previous;
  previous_qty = previous;
  new_qty = new;
  type = movement_type c.reason;
  reason = some c.reason;
  order_id = none;
  adjusted_by_id = some by;
  note = note_or_null c.note;
}

abbrev pub set_stock : ℕ → RawMaterial → RawMaterial
set_stock qty m = record m { stock_qty = qty }

unfoldable pub adjust_in_transaction : ℕ → MaterialChange → ℕ → Proc (Unit {0})
unfolding material_not_found not_enough_material changed logged_previous change_row
adjust_in_transaction id c by db = elim (lookup id db.raw_materials) [
  | none ↦ (err material_not_found, db)
  | some m ↦
      if is_decrease_only c.reason && not (lowers c.amount m.stock_qty)
      then (err decrease_only_error, db)
      else elim (changed c.amount m.stock_qty) [
        | none ↦ (err (not_enough_material m), db)
        | some new ↦ (
          ok tt,
          record db {
            raw_materials = insert id (set_stock new m) db.raw_materials;
            movements =
                db.movements
                ++ change_row id c (logged_previous c.amount m.stock_qty new) new by ∷ [];
          },
        )
      ]
]

unfoldable pub adjust_raw_material_stock : ℕ → MaterialChange → ℕ → Proc (Unit {0})
unfolding adjust_in_transaction
adjust_raw_material_stock id c by = do
  transaction (adjust_in_transaction id c by)
  refresh_availability (record { product_ids = []; material_ids = id ∷ [] })
