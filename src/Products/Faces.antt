-- ===== src/Products/Faces.antt =====
-- The menu but for what is available: what a change of the stock leaves of a product.
pub mod Settled
use zak_s_sizzling.Prelude.{
  ltb, or_else, ℕ, ◌≡◌, refl, sym, ap, ◌∙◌, Bool, true, false, ◌||◌, Option, none, some, [], ◌∷◌,
  ◌==◌, if◌then◌else◌, arith, is_some, Bool-cases, Option-cases, inl, inr,
}
use zak_s_sizzling.Store.{
  Event, emit, inventory_updated, lookup-modify, lookup-update_where, update_where, Db, Product,
  Inventory, RawMaterial, StockTracking, modify, Result-cases,
}
use zak_s_sizzling.Prelude.Int.{pos}
use zak_s_sizzling.Inventory.{
  add_delta, covers_delta, set_count, set_threshold, set_available, StockChange, apply_stock_change,
  apply_from, apply_in_transaction, change_count, update_available, check_change,
}
use zak_s_sizzling.Prelude.Dict.{Dict, lookup, insert, NodupKeys}
use zak_s_sizzling.Stock.Deduct.{TouchedStock}
use zak_s_sizzling.Stock.Refresh.{
  refresh_product, refresh_loop, refresh_availability, is_touched, product_stock,
}
use zak_s_sizzling.Stock.Refresh.Frame.{refresh_availability_frame}
use zak_s_sizzling.Products.{ProductChange, count_change, settle_stock, refresh_if, sets_count}

abbrev pub face : Product → Product
face p = record p { is_available = Bool.true }

abbrev pub faces : Dict Product → Dict Product
faces [] = []
faces ((i, p) ∷ ps) = (i, face p) ∷ faces ps

abbrev pub face_of : Option Product → Option Product
face_of none = none
face_of (some p) = some (face p)

pub lookup-faces : (i : ℕ) (ps : Dict Product) → lookup i (faces ps) ≡ face_of (lookup i ps)
lookup-faces i [] = refl
lookup-faces i ((j, p) ∷ ps) = ground (arith, lookup-faces i ps)

pub faces-NodupKeys : (ps : Dict Product) → NodupKeys ps → NodupKeys (faces ps)
faces-NodupKeys [] n = tt
faces-NodupKeys ((i, p) ∷ ps) n = (lookup-faces i ps ∙ ap face_of n.0, faces-NodupKeys ps n.1)

pub NodupKeys-faces : (ps : Dict Product) → NodupKeys (faces ps) → NodupKeys ps
NodupKeys-faces [] n = tt
NodupKeys-faces ((i, p) ∷ ps) n = (ground (arith, n.0, lookup-faces i ps), NodupKeys-faces ps n.1)

-- A row with the same face in the row's place.
pub faces-insert :
    (i : ℕ) (p q : Product) (ps : Dict Product)
    → lookup i ps ≡ some p
    → face q ≡ face p
    → faces (insert i q ps) ≡ faces ps
faces-insert i p q [] l e = cc
faces-insert i p q ((j, r) ∷ ps) l e = elim (Bool-cases (j == i)) [
  | inl s ↦ ground (arith, s, l, e)
  | inr s ↦ ground (arith, s, faces-insert i p q ps (ground (arith, l, s)) e)
]

-- The same faces: the rows agree but for what is available.
pub faces-row :
    (i : ℕ) (p : Product) (ps qs : Dict Product)
    → faces ps ≡ faces qs
    → lookup i ps ≡ some p
    → (q : Product) × (lookup i qs ≡ some q) × (face q ≡ face p)
faces-row i p ps qs e l = elim (Option-cases (lookup i qs)) [
  | inl n ↦ ground (arith, n, l, e, lookup-faces i ps, lookup-faces i qs, ap (lookup i) e)
  | inr (q, n) ↦ (q, n, ground (arith, n, l, lookup-faces i ps, lookup-faces i qs, ap (lookup i) e))
]

-- The rows still to come are rows of the table as it was.
abbrev Rows : Dict Product → Dict Product → Type 0
Rows all [] = Unit
Rows all ((i, p) ∷ ps) = (lookup i all ≡ some p) × Rows all ps

Rows-cons :
    (j : ℕ) (r : Product) (all ps : Dict Product)
    → lookup j ps ≡ none
    → Rows all ps
    → Rows ((j, r) ∷ all) ps
Rows-cons j r all [] n h = tt
Rows-cons j r all ((i, p) ∷ ps) n h =
    (ground (arith, h.0, n), Rows-cons j r all ps (ground (arith, n)) h.1)

pub Rows-self : (ps : Dict Product) → NodupKeys ps → Rows ps ps
Rows-self [] n = tt
Rows-self ((i, p) ∷ ps) n = (ground arith, Rows-cons i p ps ps n.0 (Rows-self ps n.1))

refresh_product-faces :
    (all : Dict Product) (i : ℕ) (p : Product) (stock : ℕ) (db : Db)
    → lookup i all ≡ some p
    → faces db.products ≡ faces all
    → faces (refresh_product i p stock db).products ≡ faces all
unfolding refresh_product
refresh_product-faces all i p stock db l e =
    let (q, m, f) = faces-row i p all db.products (sym e) l in
    ground (
      arith,
      e,
      f,
      m,
      faces-insert i q (record p { is_available = Bool.true }) db.products,
      faces-insert i q (record p { is_available = Bool.false }) db.products,
    )

pub refresh_loop-faces :
    (t : TouchedStock) (inv : Dict Inventory) (ms : Dict RawMaterial) (all ps : Dict Product)
    (db : Db)
    → Rows all ps
    → faces db.products ≡ faces all
    → faces (refresh_loop t inv ms ps db).products ≡ faces all
unfolding refresh_loop
refresh_loop-faces t inv ms all [] db r e = e
refresh_loop-faces t inv ms all ((i, p) ∷ ps) db r e =
    refresh_loop-faces t inv ms all ps
      (if is_touched t i p then refresh_product i p (product_stock inv ms i p) db else db) r.1
      (ground (arith, e, refresh_product-faces all i p (product_stock inv ms i p) db r.0 e))
