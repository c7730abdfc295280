-- ===== src/Products/Import/Stocks.antt =====
-- The stock of an imported product can be set.
use zak_s_sizzling.Products.Faces.Settled.{SameMenu, change_count-SameMenu}
use zak_s_sizzling.Products.Barcodes.{
  DistinctBarcodes-faces, has_any-faces, has_any, DistinctBarcodes,
}
use zak_s_sizzling.Prelude.{
  ℕ, ◌≡◌, refl, sym, ap, ◌∙◌, true, false, Option, none, some, arith, is_some, Bool-cases,
  Option-cases, inl, inr,
}
use zak_s_sizzling.Prelude.Text.{Text}
use zak_s_sizzling.Prelude.Dict.{lookup, NodupKeys}
use zak_s_sizzling.Inventory.{
  StockChange, apply_stock_change, apply_from, apply_in_transaction, change_count, update_available,
  check_change, StockResult,
}
use zak_s_sizzling.Store.{Db, Product, Inventory, StockTracking, ok}
use zak_s_sizzling.Products.{ProductChange, settle_stock, sets_count, count_change, counts_fit}
use zak_s_sizzling.Products.Faces.{faces-row, NodupKeys-faces, faces-NodupKeys}

-- What an import relies on: keys and barcodes are unique, and every product has its stock row.
pub record Ready (db : Db) : Type 0 where
  pub distinct : NodupKeys db.products
  pub barcodes : DistinctBarcodes db.products
  pub stocked :
      (i : ℕ) (p : Product) → lookup i db.products ≡ some p → is_some (lookup i db.inventory) ≡ true

pub SameMenu-Ready : (db db' : Db) → SameMenu db db' → Ready db → Ready db'
SameMenu-Ready db db' s r = record {
  distinct = NodupKeys-faces db'.products (rw s.menu (faces-NodupKeys db.products r.distinct));
  barcodes = DistinctBarcodes-faces db'.products db.products s.menu r.barcodes;
  stocked = λ i p l.
      let (q, m, f) = faces-row i p db'.products db.products s.menu l in
      s.stocked i ∙ r.stocked i q m;
}

pub SameMenu-has_any :
    (db db' : Db) (b : Text) → SameMenu db db' → has_any b db'.products ≡ has_any b db.products
SameMenu-has_any db db' b s =
    sym (has_any-faces b db'.products) ∙ ap (has_any b) s.menu ∙ has_any-faces b db.products

-- A count of a counted product can be set.
change_count-ok :
    (id : ℕ) (q t : Option ℕ) (seen r : Inventory) (db : Db)
    → lookup id db.inventory ≡ some r
    → let c : StockChange = record { set_qty = q; delta = none; min_stock_threshold = t } in
      (change_count id c seen db).0 ≡ ok tt
unfolding change_count
change_count-ok id (some q) t seen r db l = refl
change_count-ok id none t seen r db l = ground (arith, l)

apply_in_transaction-ok :
    (id : ℕ) (c : ProductChange) (seen r : Inventory) (db : Db)
    → lookup id db.inventory ≡ some r
    → (n : ℕ) × ((apply_in_transaction id (count_change c) seen db).0 ≡ ok n)
unfolding apply_in_transaction update_available
apply_in_transaction-ok id c seen r db l =
    let mid = (change_count id (count_change c) seen db).1 in
    let counted = change_count-ok id c.stock_qty c.min_stock_threshold seen r db l in
    let there = (change_count-SameMenu id (count_change c) seen db).stocked id in
    elim (Option-cases (lookup id mid.inventory)) [
      | inl e ↦ ground (arith, e, l, there)
      | inr (s, e) ↦ (s.stock_qty, ground (arith, e, counted))
    ]

apply_stock_change-ok :
    (id : ℕ) (c : ProductChange) (p : Product) (db : Db)
    → lookup id db.products ≡ some p
    → p.tracking ≡ StockTracking.unit
    → is_some (lookup id db.inventory) ≡ true
    → (n : StockResult) × ((apply_stock_change id (count_change c) false db).0 ≡ ok n)
unfolding apply_stock_change apply_from check_change
apply_stock_change-ok id c p db l t s = elim (Option-cases (lookup id db.inventory)) [
  | inl e ↦ ground (arith, e, s)
  | inr (seen, e) ↦
      let (n, h) = apply_in_transaction-ok id c seen seen db e in
      (record { previous_qty = seen.stock_qty; new_qty = n }, ground (arith, e, l, t, h))
]

pub settle_stock-ok :
    (id : ℕ) (c : ProductChange) (p : Product) (t : StockTracking) (db : Db)
    → lookup id db.products ≡ some p
    → p.tracking ≡ t
    → is_some (lookup id db.inventory) ≡ true
    → c.recipe ≡ none
    → counts_fit c ≡ true
    → (settle_stock id t false c db).0 ≡ ok tt
unfolding settle_stock
settle_stock-ok id c p StockTracking.recipe db l t s n f = ground (arith, n)
settle_stock-ok id c p StockTracking.unit db l t s n f =
    elim (Bool-cases (sets_count StockTracking.unit c)) [
      | inr e ↦ ground (arith, e, n)
      | inl e ↦ let (r, h) = apply_stock_change-ok id c p db l t s in ground (arith, e, f, h)
    ]
