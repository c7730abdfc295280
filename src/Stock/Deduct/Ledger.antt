-- ===== src/Stock/Deduct/Ledger.antt =====
-- The movement log that the deduction writes: what it sold of each raw material.
use zak_s_sizzling.Prelude.{
  ℕ, ◌+◌, ◌≡◌, refl, ap, ◌∙◌, Option, none, some, List, [], ◌∷◌, ◌++◌, if◌then◌else◌, arith, ◌==◌,
  All, All-append, append-eq-nil,
}
use zak_s_sizzling.Prelude.Int.{pos_part, neg_part}
use zak_s_sizzling.Prelude.Dict.{Dict, lookup, NodupKeys}
use zak_s_sizzling.Prelude.Sort.{sort_by_key}
use zak_s_sizzling.Store.{Db, ok, RawMaterial, Movement}
use zak_s_sizzling.Stock.Needs.{MaterialNeed, material_qty}
use zak_s_sizzling.Stock.Needs.Demand.{material_demand, compute_stock_needs-demand}
use zak_s_sizzling.Stock.Deduct.{deduct_stock_for_order, order_lines, sale_row, TouchedStock, sale}
use zak_s_sizzling.Stock.Deduct.Materials.{logged, sale_rows, Present, all_short}
use zak_s_sizzling.Stock.Deduct.Order.{
  deduct_stock_for_order-Deducted, deducted_db, shortages_of, materials-NodupKeys,
  materials-Present, lookup-sorted_materials,
}

-- What the log says left the stock of a raw material, and what it says came in.
abbrev pub outgoing : ℕ → List Movement → ℕ
outgoing id [] = 0
outgoing id (row ∷ rows) =
    (if row.raw_material_id == id then neg_part row.delta else 0) + outgoing id rows

-- A row's change leads from its previous quantity to its new one.
abbrev pub IsBalanced : Movement → Type 0
IsBalanced row = row.previous_qty + pos_part row.delta ≡ row.new_qty + neg_part row.delta

outgoing-append :
    (id : ℕ) (rows more : List Movement)
    → outgoing id (rows ++ more) ≡ outgoing id rows + outgoing id more
outgoing-append id [] more = omega arith
outgoing-append id (row ∷ rows) more = omega (arith, outgoing-append id rows more)

sale_rows-IsBalanced :
    (order_id : ℕ) (needs : Dict MaterialNeed) (ms : Dict RawMaterial)
    → All IsBalanced (sale_rows order_id needs ms)
unfolding sale_row
sale_rows-IsBalanced order_id [] ms = tt
sale_rows-IsBalanced order_id ((id, need) ∷ needs) ms =
    All-append IsBalanced (logged order_id id need.qty (lookup id ms)) (sale_rows order_id needs ms)
      (one (lookup id ms)) (sale_rows-IsBalanced order_id needs ms)
  where
    one : (m : Option RawMaterial) → All IsBalanced (logged order_id id need.qty m)
    one m = ground arith

outgoing-absent :
    (id order_id : ℕ) (needs : Dict MaterialNeed) (ms : Dict RawMaterial)
    → lookup id needs ≡ none
    → outgoing id (sale_rows order_id needs ms) ≡ 0
unfolding sale_row
outgoing-absent id order_id [] ms h = refl
outgoing-absent id order_id ((j, need) ∷ needs) ms h = ground (
  arith,
  outgoing-append id (logged order_id j need.qty (lookup j ms)) (sale_rows order_id needs ms),
  outgoing-absent id order_id needs ms,
)

outgoing-sale_rows :
    (id order_id : ℕ) (needs : Dict MaterialNeed) (ms : Dict RawMaterial)
    → NodupKeys needs
    → Present needs ms
    → all_short needs ms ≡ []
    → outgoing id (sale_rows order_id needs ms) ≡ material_qty (lookup id needs)
unfolding sale_row
outgoing-sale_rows id order_id [] ms h p e = refl
outgoing-sale_rows id order_id ((j, need) ∷ needs) ms h p e = ground (
  arith,
  outgoing-append id (logged order_id j need.qty (lookup j ms)) (sale_rows order_id needs ms),
  outgoing-absent id order_id needs ms,
  outgoing-sale_rows id order_id needs ms h.1 p.1,
)

-- A row of this order's sale.
abbrev pub IsSaleOf : ℕ → Movement → Type 0
IsSaleOf order_id row = (row.type ≡ sale) × (row.order_id ≡ some order_id)

sale_rows-IsSaleOf :
    (order_id : ℕ) (needs : Dict MaterialNeed) (ms : Dict RawMaterial)
    → All (IsSaleOf order_id) (sale_rows order_id needs ms)
unfolding sale_row
sale_rows-IsSaleOf order_id [] ms = tt
sale_rows-IsSaleOf order_id ((id, need) ∷ needs) ms =
    All-append (IsSaleOf order_id) (logged order_id id need.qty (lookup id ms))
      (sale_rows order_id needs ms) (one (lookup id ms)) (sale_rows-IsSaleOf order_id needs ms)
  where
    one : (m : Option RawMaterial) → All (IsSaleOf order_id) (logged order_id id need.qty m)
    one m = ground arith

-- A successful call appends to the movement log balanced rows of this order's sale, whose outgoing
-- amounts add up, for every raw material, to the demand of the order's lines.
pub deduct_stock_for_order-outgoing :
    (order_id : ℕ) (db db' : Db) (t : TouchedStock)
    → deduct_stock_for_order order_id db ≡ (ok t, db')
    → (rows : List Movement) × (db'.movements ≡ db.movements ++ rows)
      × All IsBalanced rows
      × All (IsSaleOf order_id) rows
      × ((id : ℕ) → outgoing id rows ≡ material_demand id (order_lines order_id db))
unfolding deducted_db shortages_of
deduct_stock_for_order-outgoing order_id db db' t r =
    let d = deduct_stock_for_order-Deducted order_id db db' t r in
    let ms = sort_by_key d.needs.materials in
    (
      sale_rows order_id ms db.raw_materials,
      rw d.tables,
      sale_rows-IsBalanced order_id ms db.raw_materials,
      sale_rows-IsSaleOf order_id ms db.raw_materials,
      λ id.
          outgoing-sale_rows id order_id ms db.raw_materials
            (materials-NodupKeys order_id db d.needs d.computed)
            (materials-Present order_id db d.needs d.computed) (append-eq-nil _ _ d.enough).1
          ∙ (ap material_qty (lookup-sorted_materials order_id db d.needs d.computed id)
              ∙ (compute_stock_needs-demand _ d.needs id d.computed).1),
    )
