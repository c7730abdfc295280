-- ===== src/Stock/Deduct/Covered.antt =====
-- When the two loops find nothing short: exactly where the stock covers each need.
use zak_s_sizzling.Prelude.{
  ℕ, ◌≤◌, ◌≡◌, refl, Bool, true, Option, none, some, List, [], ◌∷◌, arith, inl, inr, Option-cases,
  is_some, All,
}
use zak_s_sizzling.Prelude.Dict.{Dict, lookup, NodupKeys}
use zak_s_sizzling.Store.{
  Inventory, RawMaterial, RecipeItem, OrderItem, Product, holds, lookup-update_where,
  update_where-count,
}
use zak_s_sizzling.Stock.Needs.{RecipeLine, UnitNeed, MaterialNeed, material_qty}
use zak_s_sizzling.Stock.Deduct.{
  covers_unit, take_unit, deduct_units, recipe_lines, stock_line, stock_lines,
}
use zak_s_sizzling.Stock.Deduct.Units.{step}
use zak_s_sizzling.Stock.Deduct.Materials.{all_short, Present}

abbrev pub material_stock : Option RawMaterial → ℕ
material_stock none = 0
material_stock (some m) = m.stock_qty

-- The stock of a product covers its need, with its row there.
abbrev pub covers : Option UnitNeed → Option Inventory → Bool
covers none r = true
covers (some need) r = holds (covers_unit need.qty) r

pub deduct_units-covers :
    (id : ℕ) (needs : Dict UnitNeed) (inv : Dict Inventory)
    → NodupKeys needs
    → (deduct_units needs inv).1 ≡ []
    → covers (lookup id needs) (lookup id inv) ≡ true
unfolding deduct_units
deduct_units-covers id [] inv h e = refl
deduct_units-covers id ((j, need) ∷ needs) inv h e = ground (
  arith,
  deduct_units-covers id needs (step j need inv) h.1,
  lookup-update_where j id (covers_unit need.qty) (take_unit need.qty) inv,
  update_where-count j (covers_unit need.qty) (take_unit need.qty) inv,
)

abbrev CoveredUnits : Dict UnitNeed → Dict Inventory → Type 0
CoveredUnits [] inv = Unit
CoveredUnits ((id, need) ∷ needs) inv =
    (holds (covers_unit need.qty) (lookup id inv) ≡ true) × CoveredUnits needs inv

CoveredUnits-step :
    (id : ℕ) (need : UnitNeed) (needs : Dict UnitNeed) (inv : Dict Inventory)
    → lookup id needs ≡ none
    → CoveredUnits needs inv
    → CoveredUnits needs (step id need inv)
CoveredUnits-step id need [] inv h c = tt
CoveredUnits-step id need ((j, n) ∷ needs) inv h c = ground (
  arith,
  CoveredUnits-step id need needs inv,
  lookup-update_where id j (covers_unit need.qty) (take_unit need.qty) inv,
)

deduct_units_of_covered :
    (needs : Dict UnitNeed) (inv : Dict Inventory)
    → NodupKeys needs
    → CoveredUnits needs inv
    → (deduct_units needs inv).1 ≡ []
unfolding deduct_units
deduct_units_of_covered [] inv h c = refl
deduct_units_of_covered ((id, need) ∷ needs) inv h c = ground (
  arith,
  deduct_units_of_covered needs (step id need inv) h.1
      (CoveredUnits-step id need needs inv h.0 c.1),
  update_where-count id (covers_unit need.qty) (take_unit need.qty) inv,
)

CoveredUnits-of_lookup :
    (needs : Dict UnitNeed) (inv : Dict Inventory)
    → NodupKeys needs
    → ((id : ℕ) → covers (lookup id needs) (lookup id inv) ≡ true)
    → CoveredUnits needs inv
CoveredUnits-of_lookup [] inv h c = tt
CoveredUnits-of_lookup ((j, need) ∷ needs) inv h c =
    (ground (arith, c j), CoveredUnits-of_lookup needs inv h.1 (λ id. rest id (c id)))
  where
    rest :
        (id : ℕ)
        → covers (lookup id ((j, need) ∷ needs)) (lookup id inv) ≡ true
        → covers (lookup id needs) (lookup id inv) ≡ true
    rest id e = ground (arith, h.0)

pub deduct_units-eq-nil :
    (needs : Dict UnitNeed) (inv : Dict Inventory)
    → NodupKeys needs
    → ((id : ℕ) → covers (lookup id needs) (lookup id inv) ≡ true)
    → (deduct_units needs inv).1 ≡ []
deduct_units-eq-nil needs inv h c =
    deduct_units_of_covered needs inv h (CoveredUnits-of_lookup needs inv h c)

-- The same for raw materials.
pub all_short-covers :
    (id : ℕ) (needs : Dict MaterialNeed) (ms : Dict RawMaterial)
    → Present needs ms
    → all_short needs ms ≡ []
    → material_qty (lookup id needs) ≤ material_stock (lookup id ms)
all_short-covers id [] ms p e = omega arith
all_short-covers id ((j, need) ∷ needs) ms p e = ground (arith, all_short-covers id needs ms p.1)

pub all_short-eq-nil :
    (needs : Dict MaterialNeed) (ms : Dict RawMaterial)
    → NodupKeys needs
    → ((id : ℕ) → material_qty (lookup id needs) ≤ material_stock (lookup id ms))
    → all_short needs ms ≡ []
all_short-eq-nil [] ms h c = refl
all_short-eq-nil ((j, need) ∷ needs) ms h c =
    ground (arith, c j, all_short-eq-nil needs ms h.1 (λ id. rest id (c id)))
  where
    rest :
        (id : ℕ)
        → material_qty (lookup id ((j, need) ∷ needs)) ≤ material_stock (lookup id ms)
        → material_qty (lookup id needs) ≤ material_stock (lookup id ms)
    rest id e = ground (arith, h.0)

-- Every raw material that is needed has its row, since the query's join found it there.
abbrev pub Joined : Dict MaterialNeed → Dict RawMaterial → Type 0
Joined needs ms = (id : ℕ) → is_some (lookup id needs) ≡ true → is_some (lookup id ms) ≡ true

pub Joined-Present :
    (needs : Dict MaterialNeed) (ms : Dict RawMaterial) → Joined needs ms → Present needs ms
Joined-Present [] ms j = tt
Joined-Present ((id, need) ∷ needs) ms j =
    (ground (arith, j id), Joined-Present needs ms (λ i e. j i (ground arith)))

abbrev Known : Dict RawMaterial → List RecipeLine → Type 0
Known ms items = All (λ r. is_some (lookup r.raw_material_id ms) ≡ true) items

recipe_lines-Known : (ms : Dict RawMaterial) (rs : List RecipeItem) → Known ms (recipe_lines ms rs)
unfolding recipe_lines
recipe_lines-Known ms [] = tt
recipe_lines-Known ms (r ∷ rs) = elim (Option-cases (lookup r.raw_material_id ms)) [
  | inl e ↦ rw (e, recipe_lines) (recipe_lines-Known ms rs)
  | inr (m, e) ↦ rw (e, recipe_lines) (rw e refl, recipe_lines-Known ms rs)
]

pub stock_lines-Known :
    (ps : Dict Product) (ms : Dict RawMaterial) (is : List OrderItem)
    → All (λ l. Known ms l.recipe_items) (stock_lines ps ms is)
unfolding stock_lines stock_line
stock_lines-Known ps ms [] = tt
stock_lines-Known ps ms (i ∷ is) = elim (Option-cases (lookup i.product_id ps)) [
  | inl e ↦ rw (e, stock_lines) (stock_lines-Known ps ms is)
  | inr (p, e) ↦
      rw (e, stock_lines) (recipe_lines-Known ms p.recipe_items, stock_lines-Known ps ms is)
]
