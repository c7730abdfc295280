-- ===== src/Products/Faces/Settled.antt =====
-- A change of the stock leaves the menu's faces as they were.
use zak_s_sizzling.Products.Faces.{Rows-self, faces, faces-insert, refresh_loop-faces}
use zak_s_sizzling.Prelude.{
  ltb, or_else, ℕ, ◌≡◌, refl, ◌∙◌, Bool, true, false, not, ◌&&◌, ◌||◌, [], ◌∷◌, arith, is_some,
  Bool-cases, Option-cases, inl, inr,
}
use zak_s_sizzling.Store.{
  Event, emit, inventory_updated, lookup-modify, lookup-update_where, update_where, Db, Product,
  Inventory, StockTracking, modify, Result-cases,
}
use zak_s_sizzling.Prelude.Int.{pos}
use zak_s_sizzling.Inventory.{
  add_delta, covers_delta, set_count, set_threshold, set_available, StockChange, apply_stock_change,
  apply_from, apply_in_transaction, change_count, update_available, check_change,
}
use zak_s_sizzling.Prelude.Dict.{Dict, lookup, NodupKeys}
use zak_s_sizzling.Stock.Deduct.{TouchedStock}
use zak_s_sizzling.Stock.Refresh.{refresh_availability}
use zak_s_sizzling.Stock.Refresh.Frame.{refresh_availability_frame}
use zak_s_sizzling.Products.{
  ProductChange, count_change, settle_stock, refresh_if, sets_count, counts_fit,
}

-- The tables that the menu's checks read, but for what is available.
pub record SameMenu (db db' : Db) : Type 0 where
  pub menu : faces db'.products ≡ faces db.products
  pub materials : db'.raw_materials ≡ db.raw_materials
  pub categories : db'.categories ≡ db.categories
  pub stocked : (i : ℕ) → is_some (lookup i db'.inventory) ≡ is_some (lookup i db.inventory)

pub SameMenu-refl : (db : Db) → SameMenu db db
SameMenu-refl db = record { menu = refl; materials = refl; categories = refl; stocked = λ i. refl }

pub refresh_availability-SameMenu :
    (t : TouchedStock) (db : Db) → NodupKeys db.products → SameMenu db (refresh_availability t db).1
unfolding refresh_availability
refresh_availability-SameMenu t db n =
    let f = refresh_availability_frame t db in
    record {
      menu = ground (
        arith,
        refresh_loop-faces t db.inventory db.raw_materials db.products db.products db
            (Rows-self db.products n) refl,
      );
      materials = ground (arith, f);
      categories = ground (arith, f);
      stocked = λ i. ground (arith, f);
    }

pub SameMenu-trans : (a b c : Db) → SameMenu a b → SameMenu b c → SameMenu a c
SameMenu-trans a b c f g = record {
  menu = g.menu ∙ f.menu;
  materials = g.materials ∙ f.materials;
  categories = g.categories ∙ f.categories;
  stocked = λ i. g.stocked i ∙ f.stocked i;
}

faces-modify :
    (i : ℕ) (b : Bool) (ps : Dict Product) → faces (modify i (set_available b) ps) ≡ faces ps
faces-modify i b ps = elim (Option-cases (lookup i ps)) [
  | inl e ↦ ground (arith, e)
  | inr (p, e) ↦ ground (arith, e, faces-insert i p (set_available b p) ps e)
]

stocked-modify :
    (i k : ℕ) (f : Inventory → Inventory) (t : Dict Inventory)
    → is_some (lookup i (modify k f t)) ≡ is_some (lookup i t)
stocked-modify i k f t = ground (arith, lookup-modify k i f t)

stocked-update_where :
    (i k : ℕ) (p : Inventory → Bool) (f : Inventory → Inventory) (t : Dict Inventory)
    → is_some (lookup i (update_where k p f t).0) ≡ is_some (lookup i t)
stocked-update_where i k p f t = ground (arith, lookup-update_where k i p f t)

change_count-stocked :
    (id : ℕ) (c : StockChange) (seen : Inventory) (db : Db) (i : ℕ)
    → is_some (lookup i (change_count id c seen db).1.inventory) ≡ is_some (lookup i db.inventory)
unfolding change_count
change_count-stocked id c seen db i = elim (Option-cases c.set_qty) [
  | inr (q, e) ↦ ground (
    arith,
    e,
    stocked-modify i id (set_count q (or_else c.min_stock_threshold seen.min_stock_threshold))
        db.inventory,
  )
  | inl e ↦
      let d = or_else c.delta (pos 0) in
      let inv = (update_where id (covers_delta d) (add_delta d) db.inventory).0 in
      ground (
        arith,
        e,
        stocked-modify i id (set_threshold c.min_stock_threshold) inv,
        stocked-update_where i id (covers_delta d) (add_delta d) db.inventory,
      )
]

pub change_count-SameMenu :
    (id : ℕ) (c : StockChange) (seen : Inventory) (db : Db)
    → SameMenu db (change_count id c seen db).1
unfolding change_count
change_count-SameMenu id c seen db = record {
  menu = ground arith;
  materials = ground arith;
  categories = ground arith;
  stocked = change_count-stocked id c seen db;
}

update_available-SameMenu : (id : ℕ) (db : Db) → SameMenu db (update_available id db).1
unfolding update_available
update_available-SameMenu id db = record {
  menu = grind (arith, faces-modify);
  materials = ground arith;
  categories = ground arith;
  stocked = λ i. ground arith;
}

apply_in_transaction-SameMenu :
    (id : ℕ) (c : StockChange) (seen : Inventory) (db : Db)
    → SameMenu db (apply_in_transaction id c seen db).1
unfolding apply_in_transaction
apply_in_transaction-SameMenu id c seen db = elim (Result-cases (change_count id c seen db).0) [
  | inr (x, e) ↦
      let q : (apply_in_transaction id c seen db).1 ≡ (change_count id c seen db).1 =
        ground (arith, e) in
      rw q (change_count-SameMenu id c seen db)
  | inl (u, e) ↦
      let mid = (change_count id c seen db).1 in
      let q : (apply_in_transaction id c seen db).1 ≡ (update_available id mid).1 =
        ground (arith, e) in
      rw q (
        SameMenu-trans db mid (update_available id mid).1 (change_count-SameMenu id c seen db)
          (update_available-SameMenu id mid))
]

emit-SameMenu : (e : Event) (db : Db) → SameMenu db (emit e db).1
emit-SameMenu e db = record {
  menu = refl;
  materials = refl;
  categories = refl;
  stocked = λ i. refl;
}

apply_from-SameMenu :
    (id : ℕ) (c : StockChange) (d : Bool) (p : Product) (seen : Inventory) (db : Db)
    → SameMenu db (apply_from id c d p seen db).1
unfolding apply_from
apply_from-SameMenu id c d p seen db = elim (Result-cases (check_change c d p seen.stock_qty)) [
  | inr (x, e) ↦
      let q : (apply_from id c d p seen db).1 ≡ db = ground (arith, e) in rw q (SameMenu-refl db)
  | inl (u, e) ↦ elim (Result-cases (apply_in_transaction id c seen db).0) [
    | inr (x, r) ↦
        let q : (apply_from id c d p seen db).1 ≡ db = ground (arith, e, r) in
        rw q (SameMenu-refl db)
    | inl (n, r) ↦
        let mid = (apply_in_transaction id c seen db).1 in
        let ev = inventory_updated id (ltb 0 n) n in
        let q : (apply_from id c d p seen db).1 ≡ (emit ev mid).1 = ground (arith, e, r) in
        rw q (
          SameMenu-trans db mid (emit ev mid).1 (apply_in_transaction-SameMenu id c seen db)
            (emit-SameMenu ev mid))
  ]
]

pub apply_stock_change-SameMenu :
    (id : ℕ) (c : StockChange) (d : Bool) (db : Db) → SameMenu db (apply_stock_change id c d db).1
unfolding apply_stock_change
apply_stock_change-SameMenu id c d db = elim (Option-cases (lookup id db.inventory)) [
  | inl e ↦
      let q : (apply_stock_change id c d db).1 ≡ db = ground (arith, e) in rw q (SameMenu-refl db)
  | inr (seen, e) ↦ elim (Option-cases (lookup id db.products)) [
    | inl f ↦
        let q : (apply_stock_change id c d db).1 ≡ db = ground (arith, e, f) in
        rw q (SameMenu-refl db)
    | inr (p, f) ↦
        let q : (apply_stock_change id c d db).1 ≡ (apply_from id c d p seen db).1 =
          ground (arith, e, f) in
        rw q (apply_from-SameMenu id c d p seen db)
  ]
]

pub refresh_if-SameMenu :
    (b : Bool) (id : ℕ) (db : Db) → NodupKeys db.products → SameMenu db (refresh_if b id db).1
refresh_if-SameMenu true id db n =
    refresh_availability-SameMenu (record { product_ids = id ∷ []; material_ids = [] }) db n
refresh_if-SameMenu false id db n = SameMenu-refl db

-- What follows an edit of a product leaves the menu as it was.
pub settle_stock-SameMenu :
    (id : ℕ) (tracking : StockTracking) (switching : Bool) (c : ProductChange) (db : Db)
    → NodupKeys db.products
    → SameMenu db (settle_stock id tracking switching c db).1
unfolding settle_stock
settle_stock-SameMenu id tracking switching c db n = elim (Bool-cases (sets_count tracking c)) [
  | inl e ↦ elim (Bool-cases (is_some (lookup id db.inventory) && not (counts_fit c))) [
    | inl f ↦
        let q : (settle_stock id tracking switching c db).1 ≡ db = ground (arith, e, f) in
        rw q (SameMenu-refl db)
    | inr f ↦
        let q : (settle_stock id tracking switching c db).1
            ≡ (apply_stock_change id (count_change c) false db).1 =
          ground (arith, e, f) in
        rw q (apply_stock_change-SameMenu id (count_change c) false db)
  ]
  | inr e ↦
      let q : (settle_stock id tracking switching c db).1
          ≡ (refresh_if (switching || is_some c.recipe) id db).1 =
        ground (arith, e) in
      rw q (refresh_if-SameMenu (switching || is_some c.recipe) id db n)
]
