-- ===== src/Products/Import/Preview.antt =====
-- The preview of an import says what the import does.
use zak_s_sizzling.Products.Import.Run.{
  add_result, bulk_import_products, check_row, done, existing_of, failed, import_loop, import_row,
  is_in_file, remember, save_checked, status_of,
}
use zak_s_sizzling.Products.Import.Stocks.{Ready}
use zak_s_sizzling.Menu.{find_barcode}
use zak_s_sizzling.Products.Import.Rows.{check_row-valid}
use zak_s_sizzling.Products.Import.{
  no_progress, RowStatus, JsNumber, Checked, valid, refused, ValidRow, Progress,
}
use zak_s_sizzling.Products.Barcodes.{find_barcode-has, find_barcode-lookup, has_any}
use zak_s_sizzling.Products.Import.Saves.{
  Imported, added_db, create_product-Imported, create_product-ok, edited_end, row_fits,
  update_product-Imported, update_product-ok,
}
use zak_s_sizzling.Store.{Product, Db, Category, Error}
use zak_s_sizzling.Prelude.{
  ℕ, ◌⊎◌, ◌+◌, ◌≡◌, refl, sym, ap, ◌∙◌, Bool, true, false, ◌||◌, Option, none, some, List, [], ◌∷◌,
  arith, is_some, any, Option-cases, inl, inr,
}
use zak_s_sizzling.Prelude.Text.{Text, text_eq}
use zak_s_sizzling.Prelude.Dict.{Dict, lookup}
use zak_s_sizzling.Csv.{Row}
use zak_s_sizzling.Inventory.{note_or_null}

Checked-cases :
    (c : Checked)
    → ((e : Text) × (name : Option Text) × (c ≡ refused e name)) ⊎ ((v : ValidRow) × (c ≡ valid v))
Checked-cases (refused e name) = inl (e, name, refl)
Checked-cases (valid v) = inr (v, refl)

-- The two runs agree so far: the real one's menu knows the barcodes that the preview counts.
record Agree (s : Progress) (db db' : Db) : Type 0 where
  ready : Ready db'
  categories : db'.categories ≡ db.categories
  known :
      (c : Text)
      → has_any c db'.products ≡ (has_any c db.products || any (λ d. text_eq d c) s.in_file)

-- The row is refused, or its values are what their columns hold.
unfoldable pub FitsColumns : (Text → JsNumber) → (Text → Text) → Dict Category → Row → Type 0
FitsColumns number lower_case cs r =
    (v : ValidRow) → check_row number lower_case r cs ≡ valid v → row_fits v ≡ true

unfoldable pub AllFit : (Text → JsNumber) → (Text → Text) → Dict Category → List Row → Type 0
AllFit number lower_case cs [] = Unit {0}
AllFit number lower_case cs (r ∷ rs) =
    FitsColumns number lower_case cs r × AllFit number lower_case cs rs

module _ (number : Text → JsNumber) (lower_case : Text → Text) (fresh : Db → ℕ)
    (message_of : Error → Text) (is_fresh : (db : Db) → lookup (fresh db) db.products ≡ none) where
  -- What saving a row answers, and what it leaves.
  save_checked-updated :
      (n : ℕ) (v : ValidRow) (b : Text) (id : ℕ) (p : Product) (db : Db)
      → Ready db
      → is_some (lookup v.category_id db.categories) ≡ true
      → row_fits v ≡ true
      → v.barcode ≡ some b
      → find_barcode b db.products ≡ some (id, p)
      → (db' : Db) × (save_checked number lower_case fresh message_of n v db
          ≡ (done n RowStatus.updated v.name, db'))
        × Imported v.barcode db db'
  unfolding save_checked
  save_checked-updated n v b id p db r c k e f =
      let l = find_barcode-lookup b id p db.products r.distinct f in
      let h = find_barcode-has b id p db.products f in
      (
        edited_end v db r c k id p l,
        ground (arith, e, f, update_product-ok v db r c k id p l),
        rw e (update_product-Imported v db r c k id p l b h),
      )

  save_checked-created :
      (n : ℕ) (v : ValidRow) (db : Db)
      → Ready db
      → is_some (lookup v.category_id db.categories) ≡ true
      → row_fits v ≡ true
      → note_or_null v.barcode ≡ v.barcode
      → existing_of v.barcode db ≡ none
      → (db' : Db) × (save_checked number lower_case fresh message_of n v db
          ≡ (done n RowStatus.created v.name, db'))
        × Imported v.barcode db db'
  unfolding save_checked
  save_checked-created n v db r c k plain f =
      let unknown : (b : Text) → v.barcode ≡ some b → has_any b db.products ≡ false =
        λ b e. ground (arith, e, f) in
      (
        added_db v db r c k (fresh db) (is_fresh db) plain unknown,
        ground (arith, f, create_product-ok v db r c k (fresh db) (is_fresh db) plain unknown),
        create_product-Imported v db r c k (fresh db) (is_fresh db) plain unknown,
      )

  abbrev real : Dict Category → ℕ → Row → Progress × Db → Progress × Db
  real = import_row number lower_case fresh message_of Bool.false

  abbrev preview : Dict Category → ℕ → Row → Progress × Db → Progress × Db
  preview = import_row number lower_case fresh message_of Bool.true

  -- The row's status in the preview.
  shown_is_existing :
      (s : Progress) (b : Option Text) (db db' : Db)
      → Agree s db db'
      → (is_some (existing_of b db) || is_in_file b s.in_file) ≡ is_some (existing_of b db')
  shown_is_existing s none db db' a = refl
  shown_is_existing s (some b) db db' a = sym (a.known b)

  remember-Agree :
      (s s' : Progress) (b : Option Text) (db mid db' : Db)
      → Agree s db mid
      → Imported b mid db'
      → s'.in_file ≡ (remember b s).in_file
      → Agree s' db db'
  remember-Agree s s' none db mid db' a i e = record {
    ready = i.ready;
    categories = i.categories ∙ a.categories;
    known = λ c. ground (arith, a.known c, i.known c, e);
  }
  remember-Agree s s' (some b) db mid db' a i e = record {
    ready = i.ready;
    categories = i.categories ∙ a.categories;
    known = λ c. ground (arith, a.known c, i.known c, e);
  }

  -- A row that both runs note in one way.
  record SameStep (n : ℕ) (r : Row) (s : Progress) (db db' : Db) : Type 0 where
    progress : Progress
    after : Db
    imports : real db.categories n r (s, db') ≡ (progress, after)
    shows : preview db.categories n r (s, db) ≡ (progress, db)
    agree : Agree progress db after

  step_of_saved :
      (n : ℕ) (r : Row) (v : ValidRow) (s : Progress) (status : RowStatus) (db db' after : Db)
      → check_row number lower_case r db.categories ≡ valid v
      → Agree s db db'
      → status_of (is_some (existing_of v.barcode db')) ≡ status
      → save_checked number lower_case fresh message_of n v db' ≡ (done n status v.name, after)
      → Imported v.barcode db' after
      → SameStep n r s db db'
  unfolding import_row
  step_of_saved n r v s status db db' after h a st saved i =
      let s' = add_result (done n status v.name) (remember v.barcode s) in
      record {
        progress = s';
        after = after;
        imports = ground (arith, h, saved);
        shows = ground (arith, h, st, shown_is_existing s v.barcode db db' a);
        agree = remember-Agree s s' v.barcode db db' after a i (ground arith);
      }

  -- One row: both runs note the same, and agree afterwards.
  row_agrees :
      (n : ℕ) (r : Row) (s : Progress) (db db' : Db)
      → Agree s db db'
      → FitsColumns number lower_case db.categories r
      → SameStep n r s db db'
  unfolding FitsColumns
  row_agrees n r s db db' a k = elim (Checked-cases (check_row number lower_case r db.categories)) [
    | inl (e, name, h) ↦
        unfold import_row in
        record {
          progress = add_result (failed n name e) s;
          after = db';
          imports = ground (arith, h);
          shows = ground (arith, h);
          agree = record { ready = a.ready; categories = a.categories; known = a.known };
        }
    | inr (v, h) ↦
        let (plain, c) = check_row-valid number lower_case r db.categories v h in
        let category : is_some (lookup v.category_id db'.categories) ≡ true = rw a.categories c in
        elim (Option-cases (existing_of v.barcode db')) [
          | inl f ↦
              let (after, saved, i) =
                save_checked-created n v db' a.ready category (k v h) plain f in
              step_of_saved n r v s RowStatus.created db db' after h a (ground (arith, f)) saved i
          | inr (row, f) ↦ elim (Option-cases v.barcode) [
            | inl e ↦ ground (arith, e, f)
            | inr (b, e) ↦
                let (after, saved, i) =
                  save_checked-updated n v b row.0 row.1 db' a.ready category (k v h) e
                    (ground (arith, e, f)) in
                step_of_saved n r v s RowStatus.updated db db' after h a (ground (arith, f)) saved i
          ]
        ]
  ]

  loop_agrees :
      (n : ℕ) (rs : List Row) (s : Progress) (db db' : Db)
      → Agree s db db'
      → AllFit number lower_case db.categories rs
      → (import_loop number lower_case fresh message_of false db.categories n rs (s, db')).0
        ≡ (import_loop number lower_case fresh message_of true db.categories n rs (s, db)).0
  unfolding import_loop AllFit
  loop_agrees n [] s db db' a k = refl
  loop_agrees n (r ∷ rs) s db db' a (k, ks) =
      let t = row_agrees n r s db db' a k in
      ground (arith, t.imports, t.shows, loop_agrees (n + 1) rs t.progress db t.after t.agree ks)

  preview_saves_nothing :
      (n : ℕ) (rs : List Row) (s : Progress × Db) (db : Db)
      → (import_loop number lower_case fresh message_of true db.categories n rs s).1 ≡ s.1
  unfolding import_loop import_row
  preview_saves_nothing n [] s db = refl
  preview_saves_nothing n (r ∷ rs) s db =
      preview_saves_nothing (n + 1) rs (preview db.categories n r s) db ∙ ground arith

  -- Where ids are new, keys and barcodes are unique, every product has its stock row, and each row that
  -- passes the checks has values that their columns hold, the preview of a file says of each row what the import then does, with the same counts, and saves nothing.
  pub bulk_import_products-preview :
      (rows : List Row) (db : Db)
      → Ready db
      → AllFit number lower_case db.categories rows
      → let shown = bulk_import_products number lower_case fresh message_of true rows db in
        let imported = bulk_import_products number lower_case fresh message_of false rows db in
        (shown.1 ≡ db)
        × (imported.0.results ≡ shown.0.results)
        × (imported.0.created ≡ shown.0.created)
        × (imported.0.updated ≡ shown.0.updated)
        × (imported.0.errors ≡ shown.0.errors)
  unfolding bulk_import_products
  bulk_import_products-preview rows db ready fit =
      let start : Agree no_progress db db = record {
        ready = ready;
        categories = refl;
        known = λ c. ground arith;
      } in
      let same = loop_agrees 2 rows no_progress db db start fit in
      (
        preview_saves_nothing 2 rows (no_progress, db) db,
        ap (λ (s : Progress). s.results) same,
        ap (λ (s : Progress). s.created) same,
        ap (λ (s : Progress). s.updated) same,
        ap (λ (s : Progress). s.errors) same,
      )
