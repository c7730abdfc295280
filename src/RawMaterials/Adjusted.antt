-- ===== src/RawMaterials/Adjusted.antt =====
-- What a raw material's adjustment does, and that its log row balances.
use zak_s_sizzling.Prelude.{
  ℕ, ◌+◌, ◌/◌, ◌≡◌, ltb, refl, false, not, ◌&&◌, some, [], ◌∷◌, ◌++◌, arith, ◌==◌, if◌then◌else◌,
  Option-cases, Bool-cases, inl, inr,
}
use zak_s_sizzling.Prelude.Int.{pos_part, neg_part, sub_ℕ}
use zak_s_sizzling.Prelude.Dict.{lookup, insert, lookup-insert}
use zak_s_sizzling.Store.{Db, Movement, RawMaterial, Error, Result-cases, ok, err}
use zak_s_sizzling.Stock.Refresh.Frame.{refresh_availability_frame}
use zak_s_sizzling.Inventory.{is_decrease_only}
use zak_s_sizzling.RawMaterials.{
  Amount, set_qty, add_qty, MaterialChange, lowers, changed, logged_previous, change_row, set_stock,
  adjust_in_transaction, adjust_raw_material_stock,
}

changed_logged :
    (a : Amount) (current new : ℕ)
    → changed a current ≡ some new
    → (logged_previous a current new ≡ current) × ((lowers a current && ltb current new) ≡ false)
unfolding changed logged_previous
changed_logged (set_qty q) current new h = (refl, ground arith)
changed_logged (add_qty d) current new h = (ground arith, ground arith)

-- What the new quantity is: the count, or what was there with the difference, to the thousandth.
pub IsChanged : Amount → ℕ → ℕ → Type 0
IsChanged (set_qty q) old new = new ≡ (q + 500) / 1000
IsChanged (add_qty d) old new = new + (neg_part d + 500) / 1000 ≡ old + (pos_part d + 500) / 1000

changed-IsChanged : (a : Amount) (old new : ℕ) → changed a old ≡ some new → IsChanged a old new
unfolding changed IsChanged
changed-IsChanged (set_qty q) old new h = ground arith
changed-IsChanged (add_qty d) old new h = ground arith

sub_ℕ_balance : (new old : ℕ) → old + pos_part (sub_ℕ new old) ≡ new + neg_part (sub_ℕ new old)
sub_ℕ_balance new old = ground arith

-- What a successful transaction has done.
record Adjusted (id : ℕ) (c : MaterialChange) (by : ℕ) (db db' : Db) : Type 0 where
  material : RawMaterial
  new : ℕ
  has_material : lookup id db.raw_materials ≡ some material
  is_changed : changed c.amount material.stock_qty ≡ some new
  is_lowered : (is_decrease_only c.reason && not (lowers c.amount material.stock_qty)) ≡ false
  tables : db' ≡ record db {
    raw_materials = insert id (set_stock new material) db.raw_materials;
    movements =
        db.movements
        ++ change_row id c (logged_previous c.amount material.stock_qty new) new by ∷ [];
  }

adjust_in_transaction-Adjusted :
    (id : ℕ) (c : MaterialChange) (by : ℕ) (db db' : Db)
    → adjust_in_transaction id c by db ≡ (ok tt, db')
    → Adjusted id c by db db'
unfolding adjust_in_transaction
adjust_in_transaction-Adjusted id c by db db' e = elim (Option-cases (lookup id db.raw_materials)) [
  | inl n ↦ ground (arith, n)
  | inr (m, n) ↦
      elim (Bool-cases (is_decrease_only c.reason && not (lowers c.amount m.stock_qty))) [
        | inl k ↦ ground (arith, n, k)
        | inr k ↦ elim (Option-cases (changed c.amount m.stock_qty)) [
          | inl x ↦ ground (arith, n, k, x)
          | inr (new, x) ↦ record {
            material = m;
            new = new;
            has_material = n;
            is_changed = x;
            is_lowered = k;
            tables = ground (arith, n, k, x);
          }
        ]
      ]
]

-- An adjustment that goes through: the raw material has the new quantity, the input rounded to
-- thousandths, and no other changes; damaged and spoiled goods never raise it; and one row is
-- logged for it, from the quantity before to the one after, whose difference is what changed.
pub adjust_raw_material_stock-logged :
    (id : ℕ) (c : MaterialChange) (by : ℕ) (db db' : Db) (j : ℕ)
    → adjust_raw_material_stock id c by db ≡ (ok tt, db')
    → (m : RawMaterial) × (new : ℕ) × (row : Movement) × (lookup id db.raw_materials ≡ some m)
      × IsChanged c.amount m.stock_qty new
      × ((is_decrease_only c.reason && ltb m.stock_qty new) ≡ false)
      × (lookup j db'.raw_materials
          ≡ (if id == j then some (record m { stock_qty = new }) else lookup j db.raw_materials))
      × (db'.movements ≡ db.movements ++ row ∷ [])
      × (row.raw_material_id ≡ id)
      × (row.previous_qty ≡ m.stock_qty)
      × (row.new_qty ≡ new)
      × (m.stock_qty + pos_part row.delta ≡ new + neg_part row.delta)
unfolding adjust_raw_material_stock change_row
adjust_raw_material_stock-logged id c by db db' j e =
    elim (Result-cases (adjust_in_transaction id c by db).0) [
      | inr (x, h) ↦ ground (arith, h)
      | inl (v, h) ↦
          let mid = (adjust_in_transaction id c by db).1 in
          let f =
            refresh_availability_frame (record { product_ids = []; material_ids = id ∷ [] }) mid in
          let a = adjust_in_transaction-Adjusted id c by db mid (ground (arith, h)) in
          let k = changed_logged c.amount a.material.stock_qty a.new a.is_changed in
          (
            a.material,
            a.new,
            change_row id c a.material.stock_qty a.new by,
            a.has_material,
            changed-IsChanged c.amount a.material.stock_qty a.new a.is_changed,
            ground (arith, a.is_lowered, k),
            ground (
              arith,
              h,
              f,
              a.tables,
              lookup-insert id j (set_stock a.new a.material) db.raw_materials,
            ),
            ground (arith, h, f, a.tables, k),
            refl,
            refl,
            refl,
            sub_ℕ_balance a.new a.material.stock_qty,
          )
    ]

-- An adjustment that is refused leaves everything as it was.
pub adjust_raw_material_stock_rollback :
    (id : ℕ) (c : MaterialChange) (by : ℕ) (db db' : Db) (e : Error)
    → adjust_raw_material_stock id c by db ≡ (err e, db')
    → db' ≡ db
unfolding adjust_raw_material_stock
adjust_raw_material_stock_rollback id c by db db' e r =
    elim (Result-cases (adjust_in_transaction id c by db).0) [
      | inr (x, h) ↦ ground (arith, h)
      | inl (v, h) ↦ ground (
        arith,
        h,
        refresh_availability_frame (record { product_ids = []; material_ids = id ∷ [] })
            (adjust_in_transaction id c by db).1,
      )
    ]
