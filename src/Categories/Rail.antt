-- ===== src/Categories/Rail.antt =====
-- The order of the kiosk's rail.
pub mod Climbs
pub mod Listed
use zak_s_sizzling.Prelude.Ids.{all_different, includes_id}
use zak_s_sizzling.Prelude.{
  ℕ, zero, suc, ◌+◌, ◌<◌, ◌≤◌, ◌≡◌, refl, Bool, true, false, not, ◌&&◌, Option, none, some, List,
  [], ◌∷◌, ◌==◌, if◌then◌else◌, arith, max, every, any, get_elem?, Bool-cases, Option-cases, inl,
  inr, ==_iff,
}
use zak_s_sizzling.Prelude.Text.{Text}
use zak_s_sizzling.Prelude.Dict.{Dict, lookup, keys, lookup-insert}
use zak_s_sizzling.Store.{Db, Category, Result-cases, ok, err, modify, lookup-modify}
use zak_s_sizzling.Categories.{
  CategoryDto, CategoryInput, new_category, assert_name_free, create_category, max_order, set_order,
  number_from, names_every, reorder_categories,
}

lookup-max_order :
    (i : ℕ) (c : Category) (cs : Dict Category) → lookup i cs ≡ some c → c.sort_order ≤ max_order cs
lookup-max_order i c [] h = cc
lookup-max_order i c ((j, d) ∷ cs) h = ground (arith, lookup-max_order i c cs)

-- A new category goes to the end: its place is after that of every category there was.
pub create_category-last :
    (fold : Text → Text) (id i : ℕ) (input : CategoryInput) (db db' : Db) (dto : CategoryDto)
    (c : Category)
    → create_category fold id input db ≡ (ok dto, db')
    → lookup i db.categories ≡ some c
    → c.sort_order < dto.sort_order
unfolding create_category new_category assert_name_free
create_category-last fold id i input db db' dto c h l =
    ground (arith, lookup-max_order i c db.categories l)

pub lookup-number_from_ne :
    (n i : ℕ) (ids : List ℕ) (cs : Dict Category)
    → includes_id ids i ≡ false
    → lookup i (number_from n ids cs) ≡ lookup i cs
unfolding number_from
lookup-number_from_ne n i [] cs h = refl
lookup-number_from_ne n i (j ∷ ids) cs h = ground (
  arith,
  lookup-number_from_ne (n + 1) i ids (modify j (set_order n) cs),
  lookup-modify j i (set_order n) cs,
)

pub includes-get_elem? :
    (k id : ℕ) (ids : List ℕ) → get_elem? ids k ≡ some id → includes_id ids id ≡ true
includes-get_elem? k id [] g = cc
includes-get_elem? zero id (j ∷ ids) g = ground arith
includes-get_elem? (suc k) id (j ∷ ids) g = ground (arith, includes-get_elem? k id ids g)

pub lookup-number_from :
    (n k id : ℕ) (ids : List ℕ) (cs : Dict Category) (c : Category)
    → get_elem? ids k ≡ some id
    → all_different ids ≡ true
    → lookup id cs ≡ some c
    → lookup id (number_from n ids cs) ≡ some (set_order (n + k) c)
unfolding number_from
lookup-number_from n k id [] cs c g a l = cc
lookup-number_from n zero id (j ∷ ids) cs c g a l = ground (
  arith,
  lookup-number_from_ne (n + 1) j ids (modify j (set_order n) cs),
  lookup-modify j j (set_order n) cs,
)
lookup-number_from n (suc k) id (j ∷ ids) cs c g a l =
    let e : n + 1 + k ≡ n + suc k = omega arith in
    ground (
      arith,
      e,
      includes-get_elem? k id ids g,
      lookup-modify j id (set_order n) cs,
      lookup-number_from (n + 1) k id ids (modify j (set_order n) cs) c g,
    )

pub lookup-keys :
    (id : ℕ) (cs : Dict Category)
    → includes_id (keys cs) id ≡ true
    → (c : Category) × (lookup id cs ≡ some c)
lookup-keys id [] h = cc
lookup-keys id ((j, c) ∷ cs) h = elim (Bool-cases (j == id)) [
  | inl e ↦ (c, rw e)
  | inr e ↦ let (d, r) = lookup-keys id cs (ground (arith, e)) in (d, ground (arith, e, r))
]

pub every-includes :
    (k id : ℕ) (ids : List ℕ) (p : ℕ → Bool)
    → get_elem? ids k ≡ some id
    → every p ids ≡ true
    → p id ≡ true
every-includes k id [] p g e = cc
every-includes zero id (j ∷ ids) p g e = ground arith
every-includes (suc k) id (j ∷ ids) p g e = ground (arith, every-includes k id ids p g)

-- A new order that is taken names known categories, and places each where it stands in the list:
-- the first one has place 1. Nothing else of a category changes, and no other table.
pub reorder_categories-placed :
    (ids : List ℕ) (db db' : Db) (dtos : List CategoryDto) (k id : ℕ)
    → reorder_categories ids db ≡ (ok dtos, db')
    → get_elem? ids k ≡ some id
    → (c : Category) × (lookup id db.categories ≡ some c)
      × (lookup id db'.categories ≡ some (set_order (k + 1) c))
      × (db' ≡ record db { categories = db'.categories; events = db'.events })
unfolding reorder_categories
reorder_categories-placed ids db db' dtos k id h g =
    let named : names_every ids db.categories ≡ true = ground arith in
    let tables : db'.categories ≡ number_from 1 ids db.categories = ground arith in
    let known =
      every-includes k id ids (includes_id (keys db.categories)) g (ground (arith, named)) in
    let (c, l) = lookup-keys id db.categories known in
    let one : 1 + k ≡ k + 1 = omega arith in
    (
      c,
      l,
      ground (arith, tables, one, named, lookup-number_from 1 k id ids db.categories c g),
      ground arith,
    )
