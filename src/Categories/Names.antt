-- ===== src/Categories/Names.antt =====
-- Category names stay different, and no product loses its category.
use zak_s_sizzling.Prelude.{
  ℕ, ◌≡◌, ◌≢◌, refl, true, false, not, ◌&&◌, Option, none, some, [], ◌∷◌, ◌==◌, if◌then◌else◌,
  arith, Option-cases, Bool-cases, inl, inr, length, keep, or_else,
}
use zak_s_sizzling.Prelude.Text.{Text, text_eq}
use zak_s_sizzling.Prelude.Dict.{Dict, lookup, insert, values, lookup-insert}
use zak_s_sizzling.Store.{Db, Product, Category, Result-cases, ok}
use zak_s_sizzling.Categories.{
  CategoryDto, CategoryInput, CategoryChange, new_category, changed_category, is_id, same_name,
  clash, assert_name_free, check_new_name, create_category, update_category, remove, product_count,
  delete_category, max_order, is_in,
}

==_neq : (a b : ℕ) → (a == b) ≡ false → a ≢ b
==_neq a b h = ground arith

module _ (fold : Text → Text) where
  -- Two categories with one name, apart from capitals, are the same category.
  abbrev pub DistinctNames : Dict Category → Type 0
  DistinctNames cs =
      (i j : ℕ) (c d : Category)
      → lookup i cs ≡ some c
      → lookup j cs ≡ some d
      → same_name fold c.name d.name ≡ true
      → i ≡ j

  clash-none :
      (name : Text) (except : Option ℕ) (cs : Dict Category) (i : ℕ) (c : Category)
      → clash fold name except cs ≡ none
      → lookup i cs ≡ some c
      → (same_name fold c.name name && not (is_id i except)) ≡ false
  unfolding clash
  clash-none name except [] i c h l = cc
  clash-none name except ((j, d) ∷ cs) i c h l = ground (arith, clash-none name except cs i c)

  assert_name_free-ok :
      (name : Text) (except : Option ℕ) (db db' : Db)
      → assert_name_free fold name except db ≡ (ok tt, db')
      → (clash fold name except db.categories ≡ none) × (db' ≡ db)
  unfolding assert_name_free
  assert_name_free-ok name except db db' h = ground arith

  text_eq_sym : (s t : Text) → text_eq s t ≡ text_eq t s
  text_eq_sym [] [] = refl
  text_eq_sym [] (b ∷ t) = refl
  text_eq_sym (a ∷ s) [] = refl
  text_eq_sym (a ∷ s) (b ∷ t) = ground (arith, text_eq_sym s t)

  -- A row whose name no other row has may be put in.
  insert-DistinctNames :
      (id : ℕ) (c : Category) (cs : Dict Category)
      → ((i : ℕ) (d : Category)
          → lookup i cs ≡ some d
          → (id == i) ≡ false
          → same_name fold d.name c.name ≡ false)
      → DistinctNames cs
      → DistinctNames (insert id c cs)
  insert-DistinctNames id c cs free h i j a b p q e = ground (
    arith,
    lookup-insert id i c cs,
    lookup-insert id j c cs,
    free i a,
    free j b,
    h i j a b,
    text_eq_sym (fold a.name) (fold b.name),
  )

  -- Creating a category keeps the names different.
  pub create_category-DistinctNames :
      (id : ℕ) (input : CategoryInput) (db db' : Db) (dto : CategoryDto)
      → DistinctNames db.categories
      → create_category fold id input db ≡ (ok dto, db')
      → DistinctNames db'.categories
  unfolding create_category new_category
  create_category-DistinctNames id input db db' dto d h =
      elim (Result-cases (assert_name_free fold input.name none db).0) [
        | inr (x, r) ↦ ground (arith, r)
        | inl (u, r) ↦
            let f =
              assert_name_free-ok input.name none db (assert_name_free fold input.name none db).1
                (ground (arith, r)) in
            let c = new_category input (max_order db.categories) in
            let e : db'.categories ≡ insert id c db.categories = ground (arith, r, f) in
            rw e (
              insert-DistinctNames id c db.categories
                (λ i a p q. ground (arith, clash-none input.name none db.categories i a)) d)
      ]

  check_new_name-free :
      (id : ℕ) (name : Option Text) (db db' : Db) (e : Category)
      → DistinctNames db.categories
      → lookup id db.categories ≡ some e
      → check_new_name fold id name db ≡ (ok tt, db')
      → (db' ≡ db)
        × ((i : ℕ) (a : Category)
            → lookup i db.categories ≡ some a
            → (id == i) ≡ false
            → same_name fold a.name (or_else name e.name) ≡ false)
  unfolding check_new_name
  check_new_name-free id none db db' e d l h = (
    ground arith,
    λ i a p q. elim (Bool-cases (same_name fold a.name e.name)) [
      | inl same ↦ absurd (omega (arith, ==_neq id i q, d i id a e p l same))
      | inr other ↦ other
    ],
  )
  check_new_name-free id (some name) db db' e d l h =
      let f = assert_name_free-ok name (some id) db db' h in
      (f.1, λ i a p q. ground (arith, clash-none name (some id) db.categories i a f.0 p))

  -- Where no two categories have the same name, capitals aside, no two have it after a change that
  -- succeeds, whether or not it renames one.
  pub update_category-DistinctNames :
      (id : ℕ) (input : CategoryChange) (db db' : Db) (dto : CategoryDto)
      → DistinctNames db.categories
      → update_category fold id input db ≡ (ok dto, db')
      → DistinctNames db'.categories
  unfolding update_category changed_category
  update_category-DistinctNames id input db db' dto d h =
      elim (Option-cases (lookup id db.categories)) [
        | inl n ↦ ground (arith, n)
        | inr (e, n) ↦ elim (Result-cases (check_new_name fold id input.name db).0) [
          | inr (x, r) ↦ ground (arith, n, r)
          | inl (u, r) ↦
              let f =
                check_new_name-free id input.name db (check_new_name fold id input.name db).1 e d n
                  (ground (arith, r)) in
              let c = changed_category input e in
              let q : db'.categories ≡ insert id c db.categories = ground (arith, n, r, f.0) in
              rw q (insert-DistinctNames id c db.categories f.1 d)
        ]
      ]

-- Every product is in a category that there is.
abbrev pub HasCategories : Db → Type 0
HasCategories db =
    (i : ℕ) (p : Product)
    → lookup i db.products ≡ some p
    → (c : Category) × (lookup p.category_id db.categories ≡ some c)

lookup-remove :
    (id j : ℕ) (cs : Dict Category)
    → lookup j (remove id cs) ≡ (if id == j then none else lookup j cs)
unfolding remove
lookup-remove id j [] = ground arith
lookup-remove id j ((i, c) ∷ cs) = ground (arith, lookup-remove id j cs)

empty-is_in :
    (id i : ℕ) (p : Product) (ps : Dict Product)
    → length (keep (is_in id) (values ps)) ≡ 0
    → lookup i ps ≡ some p
    → is_in id p ≡ false
empty-is_in id i p [] h l = cc
empty-is_in id i p ((j, q) ∷ ps) h l = ground (arith, empty-is_in id i p ps)

-- Deleting a category leaves no product without one: it succeeds only for a category that no
-- product is in, and takes that category away and no other.
pub delete_category-HasCategories :
    (id j : ℕ) (db db' : Db)
    → HasCategories db
    → delete_category id db ≡ (ok tt, db')
    → HasCategories db'
      × (lookup j db'.categories ≡ (if id == j then none else lookup j db.categories))
      × (product_count id db ≡ 0)
      × (db' ≡ record db { categories = db'.categories; events = db'.events })
unfolding delete_category product_count
delete_category-HasCategories id j db db' v h =
    let zero_count : product_count id db ≡ 0 = ground arith in
    let tables : db' ≡ record db { categories = remove id db.categories; events = db'.events } =
      ground arith in
    (
      rw tables (λ i p l. (
        (v i p l).0,
        ground (
          arith,
          (v i p l).1,
          lookup-remove id p.category_id db.categories,
          empty-is_in id i p db.products zero_count l,
        ),
      )),
      ground (arith, tables, lookup-remove id j db.categories),
      zero_count,
      ground (arith, tables),
    )
