-- ===== src/Products/Import/Saves.antt =====
-- Saving an imported row goes through: the product that has the barcode is edited, or a new one is
-- created.
use zak_s_sizzling.Products.Import.Run.{row_change, row_input}
use zak_s_sizzling.Menu.{get_product_by_id, has_barcode}
use zak_s_sizzling.Products.Import.Stocks.{Ready, SameMenu-Ready, SameMenu-has_any, settle_stock-ok}
use zak_s_sizzling.Products.Faces.Settled.{settle_stock-SameMenu}
use zak_s_sizzling.Products.{
  change_fits, counts_fit, fits_count, fits_money, input_fits, create_product, new_stock,
  barcode_taken, insert_product, new_product, same_tracking, assert_valid_recipe, changed_product,
  save_row, update_found, update_product, settle_stock,
}
use zak_s_sizzling.Products.Barcodes.{
  has_any-insert, barcode_taken-none, has_any-insert_same, lookup-has_any, DistinctBarcodes-insert,
  has_any,
}
use zak_s_sizzling.Inventory.{note_or_null}
use zak_s_sizzling.Products.Saved.{Inserted}
use zak_s_sizzling.Prelude.{
  ==_iff, ℕ, ◌≡◌, refl, ap, ◌∙◌, Bool, true, false, not, ◌||◌, Option, none, some, arith, is_some,
  or_else, ◌&&◌, Bool-cases, Option-cases, inl, inr,
}
use zak_s_sizzling.Prelude.Dict.{
  lookup-insert_self, lookup, insert, lookup-insert, insert-NodupKeys,
}
use zak_s_sizzling.Products.Import.{ValidRow}
use zak_s_sizzling.Prelude.Text.{Text, text_eq, text_eq_iff}
use zak_s_sizzling.Store.{Db, Product, StockTracking, ok}

same_tracking_refl : (t : StockTracking) → same_tracking t t ≡ true
same_tracking_refl StockTracking.unit = refl
same_tracking_refl StockTracking.recipe = refl

no_recipe-ok :
    (t : StockTracking) (db : Db) → assert_valid_recipe t none (not (same_tracking t t)) db ≡ ok tt
unfolding assert_valid_recipe
no_recipe-ok StockTracking.unit db = refl
no_recipe-ok StockTracking.recipe db = refl

abbrev pub is_one : Option Text → Text → Bool
is_one none c = false
is_one (some b) c = text_eq b c

-- A row whose values the columns hold.
unfoldable pub row_fits : ValidRow → Bool
row_fits r =
    fits_money (some r.price)
    && (fits_money r.cost && (fits_count r.stock_qty && fits_count r.min_stock_threshold))

row_change-change_fits : (r : ValidRow) → row_fits r ≡ true → change_fits (row_change r) ≡ true
unfolding row_fits
row_change-change_fits r f = ground arith

row_change-counts_fit : (r : ValidRow) → row_fits r ≡ true → counts_fit (row_change r) ≡ true
unfolding row_fits
row_change-counts_fit r f = ground arith

fits_or_else :
    (n : Option ℕ) (d : ℕ)
    → fits_count n ≡ true
    → fits_count (some d) ≡ true
    → fits_count (some (or_else n d)) ≡ true
fits_or_else none d f g = g
fits_or_else (some n) d f g = f

row_input-input_fits :
    (r : ValidRow) → row_fits r ≡ true → input_fits (row_input r) StockTracking.unit ≡ true
unfolding row_fits
row_input-input_fits r f = ground (
  arith,
  fits_or_else r.stock_qty 0 (ground arith) (unfold fits_count in refl),
  fits_or_else r.min_stock_threshold 5 (ground arith) (unfold fits_count in refl),
)

-- What saving a row has done to the menu.
pub record Imported (b : Option Text) (db db' : Db) : Type 0 where
  pub ready : Ready db'
  pub categories : db'.categories ≡ db.categories
  pub known : (c : Text) → has_any c db'.products ≡ (has_any c db.products || is_one b c)

module _ (r : ValidRow) (db : Db) (ready : Ready db)
    (category : is_some (lookup r.category_id db.categories) ≡ true)
    (fits : row_fits r ≡ true) where
  module _ (id : ℕ) (p : Product) (l : lookup id db.products ≡ some p) where
    abbrev edited : Product
    edited = changed_product (row_change r) p.tracking p

    abbrev edited_db : Db
    edited_db = record db { products = insert id edited db.products }

    edited_saved : save_row id edited db ≡ (ok tt, edited_db)
    unfolding save_row changed_product
    edited_saved = ground (arith, ready.barcodes id p l, category)

    edited-Ready : Ready edited_db
    edited-Ready = record {
      distinct = insert-NodupKeys id edited db.products ready.distinct;
      barcodes =
          DistinctBarcodes-insert id edited db.products
            (unfold changed_product in ready.barcodes id p l) ready.barcodes;
      stocked = λ j q m. ground (
        arith,
        m,
        l,
        lookup-insert id j edited db.products,
        ready.stocked j q,
        ready.stocked id p l,
        ==_iff id j,
      );
    }

    abbrev pub edited_end : Db
    edited_end = (settle_stock id p.tracking false (row_change r) edited_db).1

    pub update_product-ok :
        update_product id (row_change r) db ≡ (ok (get_product_by_id id edited_end), edited_end)
    unfolding update_product update_found
    update_product-ok = ground (
      arith,
      l,
      edited_saved,
      same_tracking_refl p.tracking,
      no_recipe-ok p.tracking db,
      row_change-change_fits r fits,
      settle_stock-ok id (row_change r) edited p.tracking edited_db
          (lookup-insert_self id edited db.products) (unfold changed_product in refl)
          (ready.stocked id p l) refl (row_change-counts_fit r fits),
    )

    pub update_product-Imported :
        (b : Text) → has_barcode b p ≡ true → Imported (some b) db edited_end
    update_product-Imported b h =
        let s =
          settle_stock-SameMenu id p.tracking false (row_change r) edited_db
            edited-Ready.distinct in
        record {
          ready = SameMenu-Ready edited_db edited_end s edited-Ready;
          categories = s.categories;
          known = λ c.
              SameMenu-has_any edited_db edited_end c s
              ∙ has_any-insert_same c id p edited db.products l (unfold changed_product in refl)
              ∙ absorbed b c h;
        }
      where
        absorbed :
            (b c : Text)
            → has_barcode b p ≡ true
            → has_any c db.products ≡ (has_any c db.products || text_eq b c)
        absorbed b c h = elim (Bool-cases (text_eq b c)) [
          | inr e ↦ ground (arith, e)
          | inl e ↦
              let known : has_any b db.products ≡ true = lookup-has_any b id p db.products l h in
              let there : has_any c db.products ≡ true = rw (← text_eq_iff b c e) known in
              ground (arith, e, there)
        ]

  module _ (id : ℕ) (new : lookup id db.products ≡ none)
      (plain : note_or_null r.barcode ≡ r.barcode)
      (unknown : (b : Text) → r.barcode ≡ some b → has_any b db.products ≡ false) where
    abbrev added : Product
    added = new_product (row_input r) StockTracking.unit

    abbrev pub added_db : Db
    added_db = (insert_product id (row_input r) StockTracking.unit db).1

    added_free : barcode_taken id added.barcode db.products ≡ false
    unfolding new_product barcode_taken
    added_free = elim (Option-cases r.barcode) [
      | inl e ↦ rw (plain, e) refl
      | inr (b, e) ↦ rw (plain, e) (barcode_taken-none id b db.products (unknown b e))
    ]

    added_saved :
        save_row id added db ≡ (ok tt, record db { products = insert id added db.products })
    unfolding save_row new_product
    added_saved = ground (arith, added_free, category)

    added_Inserted : Inserted id (row_input r) StockTracking.unit db added_db
    unfolding insert_product
    added_Inserted = record {
      returns = ground (arith, added_saved, row_input-input_fits r fits);
      free = added_free;
      saved = ground (arith, added_saved, row_input-input_fits r fits);
      materials = ground (arith, added_saved, row_input-input_fits r fits);
      categories = ground (arith, added_saved, row_input-input_fits r fits);
      stock = ground (arith, added_saved, row_input-input_fits r fits);
    }

    pub create_product-ok :
        create_product id (row_input r) db ≡ (ok (get_product_by_id id added_db), added_db)
    unfolding create_product assert_valid_recipe
    create_product-ok = ground (arith, added_Inserted.returns)

    one : (c : Text) → has_barcode c added ≡ is_one r.barcode c
    unfolding new_product
    one c = elim (Option-cases r.barcode) [
      | inl e ↦ rw (plain, e) refl
      | inr (b, e) ↦ rw (plain, e) refl
    ]

    pub create_product-Imported : Imported r.barcode db added_db
    create_product-Imported = record {
      ready = record {
        distinct = rw added_Inserted.saved (insert-NodupKeys id added db.products ready.distinct);
        barcodes =
            rw added_Inserted.saved
              (DistinctBarcodes-insert id added db.products added_free ready.barcodes);
        stocked = λ j q m. ground (
          arith,
          m,
          added_Inserted.saved,
          added_Inserted.stock,
          lookup-insert id j added db.products,
          lookup-insert id j (new_stock (row_input r) StockTracking.unit) db.inventory,
          ready.stocked j q,
        );
      };
      categories = added_Inserted.categories;
      known = λ c.
          ap (has_any c) added_Inserted.saved
          ∙ has_any-insert c id added db.products new
          ∙ ap (λ (x : Bool). has_any c db.products || x) (one c);
    }
