-- ===== src/Categories.antt =====
-- The kiosk's categories (apps/api/src/modules/categories/service.ts). `fold` is the database's
-- comparison without capitals: two names are the same if their folds are. A new id is an argument.
-- The unique column cannot refuse a name that `assertNameFree` let through.
pub mod Names
pub mod Rail
use zak_s_sizzling.Prelude.{
  ℕ, ◌+◌, Bool, true, false, not, ◌&&◌, ◌||◌, Option, none, some, List, [], ◌∷◌, ◌++◌, ◌==◌, ltb,
  leb, if◌then◌else◌, is_some, or_else, length, keep, map, every, max, any,
}
use zak_s_sizzling.Prelude.Ids.{includes_id, all_different}
use zak_s_sizzling.Prelude.Text.{Text, text, text_eq, decimal}
use zak_s_sizzling.Prelude.Dict.{Dict, lookup, insert, keys, values}
use zak_s_sizzling.Inventory.{note_or_null}
use zak_s_sizzling.Store.{
  Db, Product, Category, categories_changed, Error, http_error, Result, ok, err, Proc, pure, read,
  lift, or_throw, throw_if, emit, write, transaction, settle, continue, modify, ◌>>=◌, ◌>>◌,
}

pub category_not_found : Error
category_not_found = http_error 404 (text "Category not found")

pub record CategoryDto : Type 0 where
  pub id : ℕ
  pub name : Text
  pub icon : Option Text
  pub sort_order : ℕ
  pub is_new : Bool
  pub product_count : ℕ

abbrev pub is_in : ℕ → Product → Bool
is_in id p = p.category_id == id

-- `_count: { products }`
unfoldable pub product_count : ℕ → Db → ℕ
product_count id db = length (keep (is_in id) (values db.products))

unfoldable pub to_category_dto : Db → ℕ × Category → CategoryDto
unfolding product_count
to_category_dto db (id, c) = record {
  id = id;
  name = c.name;
  icon = c.icon;
  sort_order = c.sort_order;
  is_new = c.is_new;
  product_count = product_count id db;
}

-- A route's id: what `Number` makes of it, where that is a whole number that is not negative.
unfoldable pub parse_category_id : Option ℕ → Result ℕ
unfolding category_not_found
parse_category_id none = err category_not_found
parse_category_id (some id) = if id == 0 || ltb 2147483647 id then err category_not_found else ok id

-- `orderBy: [{ sortOrder: "asc" }, { id: "asc" }]`
abbrev pub comes_first : ℕ × Category → ℕ × Category → Bool
comes_first (i, c) (j, d) =
    ltb c.sort_order d.sort_order || (c.sort_order == d.sort_order && leb i j)

unfoldable pub put_in_rail : ℕ × Category → Dict Category → Dict Category
put_in_rail r [] = r ∷ []
put_in_rail r (s ∷ rs) = if comes_first r s then r ∷ (s ∷ rs) else s ∷ put_in_rail r rs

unfoldable pub in_rail_order : Dict Category → Dict Category
unfolding put_in_rail
in_rail_order [] = []
in_rail_order (r ∷ rs) = put_in_rail r (in_rail_order rs)

unfoldable pub list_categories : Db → List CategoryDto
unfolding in_rail_order to_category_dto
list_categories db = map (to_category_dto db) (in_rail_order db.categories)

abbrev pub is_id : ℕ → Option ℕ → Bool
is_id i none = false
is_id i (some j) = i == j

pub name_taken : Category → Error
name_taken c =
    http_error 409 (text "There is already a category called \"" ++ (c.name ++ text "\""))

abbrev pub max_order : Dict Category → ℕ
max_order [] = 0
max_order ((i, c) ∷ cs) = max c.sort_order (max_order cs)

pub record CategoryInput : Type 0 where
  pub name : Text
  pub icon : Option Text
  pub is_new : Option Bool

-- A field that is left out stays as it is; an icon can be taken away.
pub record CategoryChange : Type 0 where
  pub name : Option Text
  pub icon : Option (Option Text)
  pub is_new : Option Bool

unfoldable pub changed_category : CategoryChange → Category → Category
changed_category i c = record {
  name = or_else i.name c.name;
  icon = elim i.icon [ none ↦ c.icon | some t ↦ note_or_null t ];
  sort_order = c.sort_order;
  is_new = or_else i.is_new c.is_new;
}

unfoldable pub new_category : CategoryInput → ℕ → Category
new_category i last = record {
  name = i.name;
  icon = note_or_null i.icon;
  sort_order = last + 1;
  is_new = or_else i.is_new false;
}

abbrev pub put_category : ℕ → Category → Db → Db
put_category id c db = record db { categories = insert id c db.categories }

module _ (fold : Text → Text) where
  abbrev pub same_name : Text → Text → Bool
  same_name s t = text_eq (fold s) (fold t)

  unfoldable pub clash : Text → Option ℕ → Dict Category → Option Category
  clash name except [] = none
  clash name except ((i, c) ∷ cs) =
      if same_name c.name name && not (is_id i except) then some c else clash name except cs

  unfoldable pub assert_name_free : Text → Option ℕ → Proc (Unit {0})
  unfolding clash name_taken
  assert_name_free name except db = elim (clash name except db.categories) [
    | none ↦ (ok tt, db)
    | some c ↦ (err (name_taken c), db)
  ]

  unfoldable pub create_category : ℕ → CategoryInput → Proc CategoryDto
  unfolding assert_name_free new_category to_category_dto
  create_category id input = do
    assert_name_free input.name none
    row ← read (λ db. new_category input (max_order db.categories))
    write (put_category id row)
    emit categories_changed
    read (λ db. to_category_dto db (id, row))

  unfoldable pub check_new_name : ℕ → Option Text → Proc (Unit {0})
  unfolding assert_name_free
  check_new_name id none db = (ok tt, db)
  check_new_name id (some name) db = assert_name_free name (some id) db

  unfoldable pub update_category : ℕ → CategoryChange → Proc CategoryDto
  unfolding category_not_found check_new_name changed_category to_category_dto
  update_category id input = do
    existing ← (λ db. or_throw (lookup id db.categories) category_not_found db)
    check_new_name id input.name
    write (put_category id (changed_category input existing))
    emit categories_changed
    read (λ db. to_category_dto db (id, changed_category input existing))

pub remove : ℕ → Dict Category → Dict Category
remove id [] = []
remove id ((i, c) ∷ cs) = if i == id then remove id cs else (i, c) ∷ remove id cs

pub not_empty : ℕ → Category → Error
not_empty count c = http_error 409 (
    text "Move its "
    ++ (decimal count
        ++ (text " product"
            ++ ((if count == 1 then [] else text "s")
                ++ (text " to another category first, then delete \"" ++ (c.name ++ text "\""))))))

unfoldable pub delete_category : ℕ → Proc (Unit {0})
unfolding category_not_found product_count not_empty remove
delete_category id = do
  existing ← (λ db. or_throw (lookup id db.categories) category_not_found db)
  count ← read (product_count id)
  throw_if (ltb 0 count) (not_empty count existing)
  write (λ db. record db { categories = remove id db.categories })
  emit categories_changed

pub order_error : Error
order_error = http_error 400 (text "The new order must list every category exactly once")

abbrev pub names_every : List ℕ → Dict Category → Bool
names_every ids cs =
    length ids == length cs && (all_different ids && every (includes_id (keys cs)) ids)

abbrev pub set_order : ℕ → Category → Category
set_order n c = record c { sort_order = n }

-- `prisma.category.update` of each id, with its place from `n` on.
unfoldable pub number_from : ℕ → List ℕ → Dict Category → Dict Category
number_from n [] cs = cs
number_from n (id ∷ ids) cs = number_from (n + 1) ids (modify id (set_order n) cs)

unfoldable pub reorder_categories : List ℕ → Proc (List CategoryDto)
unfolding order_error number_from list_categories
reorder_categories ids = do
  all ← read (λ db. db.categories)
  throw_if (not (names_every ids all)) order_error
  write (λ db. record db { categories = number_from 1 ids db.categories })
  emit categories_changed
  read list_categories
