-- ===== src/Stock/Deduct.antt =====
-- Taking an order's stock when it is paid: `deductStockForOrder`, `describeShortage` and
-- `StockShortageError` of apps/api/src/modules/inventory/fulfillment.ts.
pub mod Items
pub mod Units
pub mod Materials
pub mod Covered
pub mod Order
pub mod Ledger
use zak_s_sizzling.Prelude.{
  ℕ, ◌+◌, ◌-◌, ◌*◌, ◌/◌, ◌%◌, ◌≡◌, Bool, true, false, not, Option, none, some, List, [], ◌∷◌, ◌++◌,
  arith, ltb, leb, ◌==◌, or_else, if◌then◌else◌, map, String,
}
use zak_s_sizzling.Prelude.Int.{ℤ, sub_ℕ}
use zak_s_sizzling.Prelude.Text.{Text, text, decimal}
use zak_s_sizzling.Prelude.Dict.{Dict, lookup, insert, keys}
use zak_s_sizzling.Prelude.Sort.{sort_by_key}
use zak_s_sizzling.Store.{
  StockTracking, MaterialUnit, g, ml, pc, Shortage, ShortageKind, Error, stock_shortage,
  record_not_found, Result, ok, err, Db, Inventory, RawMaterial, Movement, MovementType, sale, Proc,
  pure, read, lift, throw_if, ◌>>=◌, ◌>>◌, update_where, Product, OrderItem, RecipeItem,
}
use zak_s_sizzling.Stock.Needs.{
  RecipeLine, StockLine, UnitNeed, MaterialNeed, StockNeeds, compute_stock_needs, unit_shortage,
  material_shortage,
}

-- A quantity as a `Decimal` prints it: up to three places, with no zeros at the end.
abbrev fraction : ℕ → Text
fraction r =
    if r == 0
    then []
    else if r % 100 == 0
    then text "." ++ decimal (r / 100)
    else if r % 10 == 0
    then text "." ++ (decimal (r / 100) ++ decimal (r / 10 % 10))
    else text "." ++ (decimal (r / 100) ++ (decimal (r / 10 % 10) ++ decimal (r % 10)))

pub decimal_text : ℕ → Text
decimal_text q = decimal (q / 1000) ++ fraction (q % 1000)

pub unit_text : MaterialUnit → Text
unit_text g = text "g"
unit_text ml = text "ml"
unit_text pc = text "pc"

abbrev unit_suffix : Option MaterialUnit → Text
unit_suffix none = text " null"
unit_suffix (some u) = text " " ++ unit_text u

unfoldable pub describe_shortage : Shortage → Text
describe_shortage s = elim s.kind [
  | ShortageKind.unit ↦
      s.name
      ++ (text ": needs "
          ++ (decimal s.needed ++ (text ", only " ++ (decimal s.available ++ text " left"))))
  | ShortageKind.material ↦
      s.name
      ++ (text ": needs "
          ++ (decimal_text s.needed
              ++ (unit_suffix s.unit
                  ++ (text ", only "
                      ++ (decimal_text s.available ++ (unit_suffix s.unit ++ text " left"))))))
]

-- `xs.join("; ")`
unfoldable pub join : Text → List Text → Text
join sep [] = []
join sep (t ∷ []) = t
join sep (t ∷ u ∷ ts) = t ++ (sep ++ join sep (u ∷ ts))

unfoldable pub shortage_error : List Shortage → Error
shortage_error ss =
    stock_shortage ss (text "Not enough stock. " ++ join (text "; ") (map describe_shortage ss))

-- The query's joins: the raw material of each recipe line, and the product of each order item. A
-- row whose partner is missing would drop out, and the foreign keys rule that out.
unfoldable pub recipe_lines : Dict RawMaterial → List RecipeItem → List RecipeLine
recipe_lines ms [] = []
recipe_lines ms (r ∷ rs) = elim (lookup r.raw_material_id ms) [
  | none ↦ recipe_lines ms rs
  | some m ↦
      record {
        raw_material_id = r.raw_material_id;
        qty_per_serving = r.qty_per_serving;
        material_name = m.name;
        material_unit = m.unit;
        material_stock = m.stock_qty;
      }
      ∷ recipe_lines ms rs
]

unfoldable pub stock_line : Dict RawMaterial → ℕ → ℕ → Product → StockLine
unfolding recipe_lines
stock_line ms qty product_id p = record {
  qty = qty;
  product_id = product_id;
  product_name = p.name;
  tracking = p.tracking;
  recipe_items = recipe_lines ms p.recipe_items;
}

unfoldable pub stock_lines : Dict Product → Dict RawMaterial → List OrderItem → List StockLine
stock_lines ps ms [] = []
stock_lines ps ms (i ∷ is) = elim (lookup i.product_id ps) [
  | none ↦ stock_lines ps ms is
  | some p ↦ stock_line ms i.qty i.product_id p ∷ stock_lines ps ms is
]

-- `orderItem.findMany({ where: { orderId } })`
unfoldable pub items_of : ℕ → Dict OrderItem → Dict OrderItem
items_of order_id [] = []
items_of order_id ((id, i) ∷ is) =
    if i.order_id == order_id then (id, i) ∷ items_of order_id is else items_of order_id is

unfoldable pub item_rows : Dict OrderItem → List OrderItem
item_rows [] = []
item_rows ((id, i) ∷ is) = i ∷ item_rows is

unfoldable pub order_lines : ℕ → Db → List StockLine
unfolding stock_lines item_rows items_of
order_lines order_id db =
    stock_lines db.products db.raw_materials (item_rows (items_of order_id db.order_items))

-- `current?.stockQty ?? 0`
abbrev pub unit_stock : Option Inventory → ℕ
unit_stock none = 0
unit_stock (some r) = r.stock_qty

abbrev pub covers_unit : ℕ → Inventory → Bool
covers_unit qty r = leb qty r.stock_qty

abbrev pub take_unit : ℕ → Inventory → Inventory
take_unit qty r = record r { stock_qty = r.stock_qty - qty }

-- The first loop: each product's count goes down if it covers the need, in one statement.
unfoldable pub deduct_units : Dict UnitNeed → Dict Inventory → Dict Inventory × List Shortage
deduct_units [] inv = (inv, [])
deduct_units ((id, need) ∷ needs) inv =
    let (inv', done) = update_where id (covers_unit need.qty) (take_unit need.qty) inv in
    let (inv'', shortages) = deduct_units needs inv' in
    (
      inv'',
      if done then shortages else unit_shortage id need (unit_stock (lookup id inv')) ∷ shortages,
    )

abbrev pub covers_material : ℕ → RawMaterial → Bool
covers_material qty m = leb qty m.stock_qty

abbrev pub take_material : ℕ → RawMaterial → RawMaterial
take_material qty m = record m { stock_qty = m.stock_qty - qty }

-- The log row of a sale, from the stock that is left.
unfoldable pub sale_row : ℕ → ℕ → ℕ → ℕ → Movement
sale_row order_id id need left = record {
  raw_material_id = id;
  delta = sub_ℕ 0 need;
  previous_qty = left + need;
  new_qty = left;
  type = MovementType.sale;
  reason = none;
  order_id = some order_id;
  adjusted_by_id = none;
  note = none;
}

pub record MaterialTables : Type 0 where
  pub raw_materials : Dict RawMaterial
  pub movements : List Movement
  pub shortages : List Shortage

abbrev deducted : Bool → Dict RawMaterial → Shortage → Movement → MaterialTables → MaterialTables
deducted true ms short row t = record t { raw_materials = ms; movements = t.movements ++ row ∷ [] }
deducted false ms short row t = record t {
  raw_materials = ms;
  shortages = t.shortages ++ short ∷ [];
}

unfoldable pub deduct_material : ℕ → ℕ → MaterialNeed → MaterialTables → Result MaterialTables
unfolding sale_row
deduct_material order_id id need t =
    let (ms, done) =
      update_where id (covers_material need.qty) (take_material need.qty) t.raw_materials in
    elim (lookup id ms) [
      | none ↦ err record_not_found
      | some current ↦ ok (
          deducted done ms (material_shortage id need current.stock_qty)
            (sale_row order_id id need.qty current.stock_qty) t)
    ]

-- The second loop: the same for raw materials, each with its row in the movement log.
unfoldable pub deduct_materials : ℕ → Dict MaterialNeed → MaterialTables → Result MaterialTables
deduct_materials order_id [] t = ok t
deduct_materials order_id ((id, need) ∷ needs) t = elim (deduct_material order_id id need t) [
  | ok t' ↦ deduct_materials order_id needs t'
  | err e ↦ err e
]

pub record TouchedStock : Type 0 where
  pub product_ids : List ℕ
  pub material_ids : List ℕ

abbrev pub is_empty {ℓ} : {A : Type ℓ} → List A → Bool
is_empty [] = true
is_empty (x ∷ xs) = false

-- The two loops on the tables, and the throw if anything was short.
unfoldable pub deduct_needs : ℕ → StockNeeds → Proc (Unit {0})
deduct_needs order_id needs db =
    let (inv, short) = deduct_units (sort_by_key needs.units) db.inventory in
    let start : MaterialTables = record {
      raw_materials = db.raw_materials;
      movements = db.movements;
      shortages = short;
    } in
    elim (deduct_materials order_id (sort_by_key needs.materials) start) [
      | err e ↦ (err e, record db { inventory = inv })
      | ok t ↦ (
        if is_empty t.shortages then ok tt else err (shortage_error t.shortages),
        record db { inventory = inv; raw_materials = t.raw_materials; movements = t.movements },
      )
    ]

unfoldable pub deduct_stock_for_order : ℕ → Proc TouchedStock
unfolding deduct_needs
deduct_stock_for_order order_id = do
  needs ← (λ db. (compute_stock_needs (order_lines order_id db), db))
  deduct_needs order_id needs
  pure (record { product_ids = keys needs.units; material_ids = keys needs.materials })
