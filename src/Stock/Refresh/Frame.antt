-- ===== src/Stock/Refresh/Frame.antt =====
-- What `refreshAvailability` leaves alone.
use zak_s_sizzling.Prelude.{◌≡◌, refl, [], ◌∷◌, arith}
use zak_s_sizzling.Prelude.Dict.{Dict}
use zak_s_sizzling.Store.{Db, Product, Inventory, RawMaterial, ok}
use zak_s_sizzling.Stock.Deduct.{TouchedStock}
use zak_s_sizzling.Stock.Refresh.{
  refresh_product, refresh_loop, refresh_availability, product_stock,
}

-- The same state but for the products and the events.
abbrev pub with_products : Db → Db → Db
with_products db db' = record db { products = db'.products; events = db'.events }

refresh_loop_frame :
    (t : TouchedStock) (inv : Dict Inventory) (ms : Dict RawMaterial) (ps : Dict Product) (db : Db)
    → refresh_loop t inv ms ps db ≡ with_products db (refresh_loop t inv ms ps db)
unfolding refresh_loop refresh_product
refresh_loop_frame t inv ms [] db = refl
refresh_loop_frame t inv ms ((id, p) ∷ ps) db = ground (
  arith,
  refresh_loop_frame t inv ms ps (refresh_product id p (product_stock inv ms id p) db),
  refresh_loop_frame t inv ms ps db,
)

-- It always returns, and it changes the products and the events only.
pub refresh_availability_frame :
    (t : TouchedStock) (db : Db)
    → refresh_availability t db ≡ (ok tt, with_products db (refresh_availability t db).1)
unfolding refresh_availability
refresh_availability_frame t db =
    ground (arith, refresh_loop_frame t db.inventory db.raw_materials db.products db)
