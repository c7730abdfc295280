-- ===== src/Stock/Deduct/Order.antt =====
-- The whole deduction for an order: what it takes, when it succeeds, and what it leaves alone.
use zak_s_sizzling.Prelude.{
  ℕ, ◌+◌, ◌≤◌, ◌≡◌, true, List, [], ◌++◌, if◌then◌else◌, arith, ◌↔◌, inl, inr, is_some, All,
  append-eq-nil,
}
use zak_s_sizzling.Prelude.Dict.{Dict, lookup, NodupKeys, keys}
use zak_s_sizzling.Prelude.Sort.{sort_by_key, lookup-sort_by_key, sort_by_key-NodupKeys}
use zak_s_sizzling.Store.{Db, ok, err, Result-cases}
use zak_s_sizzling.Stock.Needs.{StockLine, StockNeeds, UnitNeed, MaterialNeed, compute_stock_needs}
use zak_s_sizzling.Stock.Needs.Demand.{
  unit_demand, material_demand, IsMakeable, compute_stock_needs-demand,
  compute_stock_needs-IsMakeable, compute_stock_needs-NodupKeys,
}
use zak_s_sizzling.Stock.Needs.Entries.{
  Ordered, compute_stock_needs-Within, compute_stock_needs-Positive,
}
use zak_s_sizzling.Stock.Deduct.{
  unit_stock, deduct_units, deduct_needs, deduct_stock_for_order, order_lines, shortage_error,
  TouchedStock, Shortage, is_empty, MaterialTables,
}
use zak_s_sizzling.Stock.Deduct.Units.{lookup-deduct_units}
use zak_s_sizzling.Stock.Deduct.Materials.{
  after, lookup-after, all_short, sale_rows, Present, deduct_materials_lem,
}
use zak_s_sizzling.Stock.Deduct.Covered.{
  material_stock, deduct_units-covers, deduct_units-eq-nil, all_short-covers, all_short-eq-nil,
  Joined-Present, stock_lines-Known,
}

-- The needs of an order as the loops take them, sorted.
abbrev pub sorted_units : StockNeeds → Dict UnitNeed
sorted_units needs = sort_by_key needs.units

abbrev pub sorted_materials : StockNeeds → Dict MaterialNeed
sorted_materials needs = sort_by_key needs.materials

unfoldable pub shortages_of : StockNeeds → Db → List Shortage
shortages_of needs db =
    (deduct_units (sorted_units needs) db.inventory).1
    ++ all_short (sorted_materials needs) db.raw_materials

-- The tables after the two loops.
unfoldable pub deducted_db : ℕ → StockNeeds → Db → Db
deducted_db order_id needs db = record db {
  inventory = (deduct_units (sorted_units needs) db.inventory).0;
  raw_materials = after (sorted_materials needs) db.raw_materials;
  movements = db.movements ++ sale_rows order_id (sorted_materials needs) db.raw_materials;
}

abbrev start_tables : StockNeeds → Db → MaterialTables
start_tables needs db = record {
  raw_materials = db.raw_materials;
  movements = db.movements;
  shortages = (deduct_units (sorted_units needs) db.inventory).1;
}

abbrev pub touched : StockNeeds → TouchedStock
touched needs = record { product_ids = keys needs.units; material_ids = keys needs.materials }

module _ (order_id : ℕ) (db : Db) (needs : StockNeeds)
    (e : compute_stock_needs (order_lines order_id db) ≡ ok needs) where
  pub units-NodupKeys : NodupKeys (sorted_units needs)
  units-NodupKeys = sort_by_key-NodupKeys _ (compute_stock_needs-NodupKeys _ needs e).0

  pub materials-NodupKeys : NodupKeys (sorted_materials needs)
  materials-NodupKeys = sort_by_key-NodupKeys _ (compute_stock_needs-NodupKeys _ needs e).1

  pub materials-Present : Present (sorted_materials needs) db.raw_materials
  unfolding order_lines
  materials-Present = Joined-Present (sorted_materials needs) db.raw_materials λ id s.
      compute_stock_needs-Within (λ i. is_some (lookup i db.raw_materials) ≡ true) _ needs
        (stock_lines-Known db.products db.raw_materials _) e id
        (rw (lookup-sort_by_key id needs.materials (compute_stock_needs-NodupKeys _ needs e).1) at
          s)

  pub lookup-sorted_units : (id : ℕ) → lookup id (sorted_units needs) ≡ lookup id needs.units
  lookup-sorted_units id =
      lookup-sort_by_key id needs.units (compute_stock_needs-NodupKeys _ needs e).0

  pub lookup-sorted_materials :
      (id : ℕ) → lookup id (sorted_materials needs) ≡ lookup id needs.materials
  lookup-sorted_materials id =
      lookup-sort_by_key id needs.materials (compute_stock_needs-NodupKeys _ needs e).1

  deduct_needs_lem : deduct_needs order_id needs db ≡ (
    if is_empty (shortages_of needs db)
        then ok tt
        else err (shortage_error (shortages_of needs db)),
    deducted_db order_id needs db,
  )
  unfolding deduct_needs shortages_of deducted_db
  deduct_needs_lem = rw (
    deduct_materials_lem order_id (sorted_materials needs) (start_tables needs db)
        materials-NodupKeys materials-Present,
    deduct_needs,
  )

  -- The call as one step: it throws if anything is short, and the tables are as after the loops.
  pub deduct_stock_for_order_lem : deduct_stock_for_order order_id db ≡ (
    if is_empty (shortages_of needs db)
        then ok (touched needs)
        else err (shortage_error (shortages_of needs db)),
    deducted_db order_id needs db,
  )
  unfolding deduct_stock_for_order
  deduct_stock_for_order_lem = ground (arith, e, deduct_needs_lem)

  -- With nothing short, each row has given up exactly what was needed of it.
  unit_stock-deducted :
      (id : ℕ)
      → shortages_of needs db ≡ []
      → unit_stock (lookup id (deducted_db order_id needs db).inventory)
          + unit_demand id (order_lines order_id db)
        ≡ unit_stock (lookup id db.inventory)
  unfolding shortages_of deducted_db
  unit_stock-deducted id s = ground (
    arith,
    compute_stock_needs-demand (order_lines order_id db) needs id e,
    lookup-sorted_units id,
    lookup-deduct_units id (sorted_units needs) db.inventory units-NodupKeys,
    append-eq-nil (deduct_units (sorted_units needs) db.inventory).1
        (all_short (sorted_materials needs) db.raw_materials),
    deduct_units-covers id (sorted_units needs) db.inventory units-NodupKeys,
  )

  material_stock-deducted :
      (id : ℕ)
      → shortages_of needs db ≡ []
      → material_stock (lookup id (deducted_db order_id needs db).raw_materials)
          + material_demand id (order_lines order_id db)
        ≡ material_stock (lookup id db.raw_materials)
  unfolding shortages_of deducted_db
  material_stock-deducted id s = ground (
    arith,
    compute_stock_needs-demand (order_lines order_id db) needs id e,
    lookup-sorted_materials id,
    lookup-after id (sorted_materials needs) db.raw_materials materials-NodupKeys,
    append-eq-nil (deduct_units (sorted_units needs) db.inventory).1
        (all_short (sorted_materials needs) db.raw_materials),
    all_short-covers id (sorted_materials needs) db.raw_materials materials-Present,
  )

  -- Nothing is short where the stock covers the demand, if every line asks for something.
  shortages_of-eq-nil :
      Ordered (order_lines order_id db)
      → ((id : ℕ)
          → (unit_demand id (order_lines order_id db) ≤ unit_stock (lookup id db.inventory))
            × (material_demand id (order_lines order_id db)
                ≤ material_stock (lookup id db.raw_materials)))
      → shortages_of needs db ≡ []
  unfolding shortages_of
  shortages_of-eq-nil o c = rw (
    deduct_units-eq-nil (sorted_units needs) db.inventory units-NodupKeys λ id. ground (
      arith,
      c id,
      lookup-sorted_units id,
      compute_stock_needs-demand (order_lines order_id db) needs id e,
      compute_stock_needs-Positive (order_lines order_id db) needs id o e,
    ),
    all_short-eq-nil (sorted_materials needs) db.raw_materials materials-NodupKeys λ id. ground (
      arith,
      c id,
      lookup-sorted_materials id,
      compute_stock_needs-demand (order_lines order_id db) needs id e,
    ),
  )

-- What a successful call has done.
pub record Deducted (order_id : ℕ) (db db' : Db) (t : TouchedStock) : Type 0 where
  pub needs : StockNeeds
  pub computed : compute_stock_needs (order_lines order_id db) ≡ ok needs
  pub enough : shortages_of needs db ≡ []
  pub tables : db' ≡ deducted_db order_id needs db
  pub ids : t ≡ touched needs

pub deduct_stock_for_order-Deducted :
    (order_id : ℕ) (db db' : Db) (t : TouchedStock)
    → deduct_stock_for_order order_id db ≡ (ok t, db')
    → Deducted order_id db db' t
unfolding deduct_stock_for_order
deduct_stock_for_order-Deducted order_id db db' t r =
    elim (Result-cases (compute_stock_needs (order_lines order_id db))) [
      | inl (needs, e) ↦ record {
        needs = needs;
        computed = e;
        enough = ground (arith, deduct_stock_for_order_lem order_id db needs e);
        tables = ground (arith, deduct_stock_for_order_lem order_id db needs e);
        ids = ground (arith, deduct_stock_for_order_lem order_id db needs e);
      }
      | inr (x, e) ↦ ground arith
    ]

-- A successful call takes exactly the demand of the order's lines: of every product the units that
-- they ask for, of every raw material the sum over the dishes that use it.
pub deduct_stock_for_order-demand :
    (order_id : ℕ) (db db' : Db) (t : TouchedStock) (id : ℕ)
    → deduct_stock_for_order order_id db ≡ (ok t, db')
    → (unit_stock (lookup id db'.inventory) + unit_demand id (order_lines order_id db)
        ≡ unit_stock (lookup id db.inventory))
      × (material_stock (lookup id db'.raw_materials) + material_demand id (order_lines order_id db)
          ≡ material_stock (lookup id db.raw_materials))
deduct_stock_for_order-demand order_id db db' t id r =
    let d = deduct_stock_for_order-Deducted order_id db db' t r in
    rw d.tables (
      unit_stock-deducted order_id db d.needs d.computed id d.enough,
      material_stock-deducted order_id db d.needs d.computed id d.enough,
    )

-- The stock covers the demand of the order's lines.
abbrev pub Covers : Db → List StockLine → Type 0
Covers db lines =
    (id : ℕ)
    → (unit_demand id lines ≤ unit_stock (lookup id db.inventory))
      × (material_demand id lines ≤ material_stock (lookup id db.raw_materials))

-- The call succeeds exactly when no line is a recipe dish without a recipe and the stock covers
-- the whole demand, for an order whose lines each ask for at least one serving.
pub deduct_stock_for_order-Covers :
    (order_id : ℕ) (db : Db)
    → Ordered (order_lines order_id db)
    → ((t : TouchedStock) × (db' : Db) × (deduct_stock_for_order order_id db ≡ (ok t, db')))
      ↔ (All IsMakeable (order_lines order_id db) × Covers db (order_lines order_id db))
deduct_stock_for_order-Covers order_id db o = (forth, back)
  where
    forth :
        (t : TouchedStock) × (db' : Db) × (deduct_stock_for_order order_id db ≡ (ok t, db'))
        → All IsMakeable (order_lines order_id db) × Covers db (order_lines order_id db)
    forth (t, db', r) =
        let d = deduct_stock_for_order-Deducted order_id db db' t r in
        (
          (compute_stock_needs-IsMakeable (order_lines order_id db)).0 (d.needs, d.computed),
          λ id. omega (arith, deduct_stock_for_order-demand order_id db db' t id r),
        )

    back :
        All IsMakeable (order_lines order_id db) × Covers db (order_lines order_id db)
        → (t : TouchedStock) × (db' : Db) × (deduct_stock_for_order order_id db ≡ (ok t, db'))
    back (makeable, covers) =
        let (needs, e) = (compute_stock_needs-IsMakeable (order_lines order_id db)).1 makeable in
        (
          touched needs,
          deducted_db order_id needs db,
          ground (
            arith,
            deduct_stock_for_order_lem order_id db needs e,
            shortages_of-eq-nil order_id db needs e o covers,
          ),
        )

-- A successful call changes the counts, the raw materials and the movement log, and nothing else.
pub deduct_stock_for_order_frame :
    (order_id : ℕ) (db db' : Db) (t : TouchedStock)
    → deduct_stock_for_order order_id db ≡ (ok t, db')
    → db' ≡ record db {
      inventory = db'.inventory;
      raw_materials = db'.raw_materials;
      movements = db'.movements;
    }
unfolding deducted_db
deduct_stock_for_order_frame order_id db db' t r =
    let d = deduct_stock_for_order-Deducted order_id db db' t r in rw d.tables
