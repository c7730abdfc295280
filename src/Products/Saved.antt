-- ===== src/Products/Saved.antt =====
-- What saving a product does, case by case.
use zak_s_sizzling.Products.{
  unique_violation, foreign_key_violation, value_out_of_range, input_fits, new_stock, ProductInput,
  insert_product, new_product, refresh_if, barcode_taken, save_row,
}
use zak_s_sizzling.Stock.Refresh.Frame.{refresh_availability_frame}
use zak_s_sizzling.Store.{Result, Error, Db, Product, StockTracking, ok, err}
use zak_s_sizzling.Prelude.Dict.{insert, lookup}
use zak_s_sizzling.Prelude.{
  ℕ, ◌≡◌, refl, Bool, true, false, [], ◌∷◌, arith, is_some, Bool-cases, inl, inr, ◌⊎◌, ap,
}

-- What saving a row has done.
pub save_row-cases :
    (id : ℕ) (p : Product) (db : Db)
    → ((e : Error) × (save_row id p db ≡ (err e, db)))
      ⊎ ((save_row id p db ≡ (ok tt, record db { products = insert id p db.products }))
          × (barcode_taken id p.barcode db.products ≡ false)
          × (is_some (lookup p.category_id db.categories) ≡ true))
unfolding save_row
save_row-cases id p db = elim (Bool-cases (barcode_taken id p.barcode db.products)) [
  | inl t ↦ inl (unique_violation, ground (arith, t))
  | inr t ↦ elim (Bool-cases (is_some (lookup p.category_id db.categories))) [
    | inr c ↦ inl (foreign_key_violation, ground (arith, t, c))
    | inl c ↦ inr (ground (arith, t, c), t, c)
  ]
]

pub refresh_if-ok : (b : Bool) (id : ℕ) (db : Db) → (refresh_if b id db).0 ≡ ok tt
refresh_if-ok true id db =
    ap (λ (r : Result (Unit {0}) × Db). r.0)
      (refresh_availability_frame (record { product_ids = id ∷ []; material_ids = [] }) db)
refresh_if-ok false id db = refl

-- What inserting a product has done.
pub record Inserted (id : ℕ) (i : ProductInput) (t : StockTracking) (db mid : Db) : Type 0 where
  pub returns : insert_product id i t db ≡ (ok tt, mid)
  pub free : barcode_taken id (new_product i t).barcode db.products ≡ false
  pub saved : mid.products ≡ insert id (new_product i t) db.products
  pub materials : mid.raw_materials ≡ db.raw_materials
  pub categories : mid.categories ≡ db.categories
  pub stock : mid.inventory ≡ insert id (new_stock i t) db.inventory

pub insert_product-cases :
    (id : ℕ) (i : ProductInput) (t : StockTracking) (db : Db)
    → ((e : Error) × (insert_product id i t db ≡ (err e, db)))
      ⊎ ((mid : Db) × Inserted id i t db mid)
unfolding insert_product
insert_product-cases id i t db = elim (Bool-cases (input_fits i t)) [
  | inr f ↦ inl (value_out_of_range, ground (arith, f))
  | inl f ↦ elim (save_row-cases id (new_product i t) db) [
    | inl (e, h) ↦ inl (e, ground (arith, f, h))
    | inr (h, free, known) ↦ inr (
      (insert_product id i t db).1,
      record {
        returns = ground (arith, f, h);
        free = free;
        saved = ground (arith, f, h);
        materials = ground (arith, f, h);
        categories = ground (arith, f, h);
        stock = ground (arith, f, h);
      },
    )
  ]
]
