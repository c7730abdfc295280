-- ===== src/Stock/Needs/Shortages.antt =====
-- The check for shortages and the servings of a recipe against their meaning.
use native.Mathlib.Nat.{le-div_iff_mul-le}
use zak_s_sizzling.Prelude.{
  ℕ, ◌*◌, ◌/◌, ◌≤◌, ◌<◌, ◌≡◌, refl, none, List, [], ◌∷◌, arith, ◌↔◌, All, or_else, append-eq-nil,
  ◌≢◌, min,
}
use zak_s_sizzling.Prelude.Dict.{Dict, lookup, NodupKeys}
use zak_s_sizzling.Stock.Needs.{
  RecipeLine, StockNeeds, UnitNeed, MaterialNeed, unit_qty, material_qty, short_units,
  short_materials, find_shortages, least_servings, servings_available,
}

abbrev pub level : ℕ → Dict ℕ → ℕ
level id stock = or_else (lookup id stock) 0

short_units_bound :
    (id : ℕ) (needs : Dict UnitNeed) (stock : Dict ℕ)
    → short_units needs stock ≡ []
    → unit_qty (lookup id needs) ≤ level id stock
unfolding short_units
short_units_bound id [] stock e = omega arith
short_units_bound id ((j, n) ∷ needs) stock e = ground (arith, short_units_bound id needs stock)

lookup_tail_short_units :
    (id j : ℕ) (n : UnitNeed) (needs : Dict UnitNeed) (bound : ℕ)
    → lookup j needs ≡ none
    → unit_qty (lookup id ((j, n) ∷ needs)) ≤ bound
    → unit_qty (lookup id needs) ≤ bound
lookup_tail_short_units id j n needs bound h e = ground arith

short_units-eq-nil :
    (needs : Dict UnitNeed) (stock : Dict ℕ)
    → NodupKeys needs
    → ((id : ℕ) → unit_qty (lookup id needs) ≤ level id stock)
    → short_units needs stock ≡ []
unfolding short_units
short_units-eq-nil [] stock h c = refl
short_units-eq-nil ((j, n) ∷ needs) stock h c = ground (
  arith,
  c j,
  short_units-eq-nil needs stock h.1
      (λ id. lookup_tail_short_units id j n needs (level id stock) h.0 (c id)),
)

short_materials_bound :
    (id : ℕ) (needs : Dict MaterialNeed) (stock : Dict ℕ)
    → short_materials needs stock ≡ []
    → material_qty (lookup id needs) ≤ level id stock
unfolding short_materials
short_materials_bound id [] stock e = omega arith
short_materials_bound id ((j, n) ∷ needs) stock e =
    ground (arith, short_materials_bound id needs stock)

lookup_tail_short_materials :
    (id j : ℕ) (n : MaterialNeed) (needs : Dict MaterialNeed) (bound : ℕ)
    → lookup j needs ≡ none
    → material_qty (lookup id ((j, n) ∷ needs)) ≤ bound
    → material_qty (lookup id needs) ≤ bound
lookup_tail_short_materials id j n needs bound h e = ground arith

short_materials-eq-nil :
    (needs : Dict MaterialNeed) (stock : Dict ℕ)
    → NodupKeys needs
    → ((id : ℕ) → material_qty (lookup id needs) ≤ level id stock)
    → short_materials needs stock ≡ []
unfolding short_materials
short_materials-eq-nil [] stock h c = refl
short_materials-eq-nil ((j, n) ∷ needs) stock h c = ground (
  arith,
  c j,
  short_materials-eq-nil needs stock h.1
      (λ id. lookup_tail_short_materials id j n needs (level id stock) h.0 (c id)),
)

-- The check finds no shortage exactly when every need is within its stock, where a product or a raw
-- material with no stock counts as zero.
pub find_shortages-eq-nil :
    (needs : StockNeeds) (units materials : Dict ℕ)
    → NodupKeys needs.units × NodupKeys needs.materials
    → (find_shortages needs units materials ≡ []) ↔ (
        (id : ℕ)
        → (unit_qty (lookup id needs.units) ≤ level id units)
          × (material_qty (lookup id needs.materials) ≤ level id materials))
unfolding find_shortages
find_shortages-eq-nil needs units materials h = (
  λ e id.
      let (u, m) =
        append-eq-nil (short_units needs.units units) (short_materials needs.materials materials)
          e in
      (
        short_units_bound id needs.units units u,
        short_materials_bound id needs.materials materials m,
      ),
  λ c. rw (
    short_units-eq-nil needs.units units h.0 (λ id. (c id).0),
    short_materials-eq-nil needs.materials materials h.1 (λ id. (c id).1),
  ),
)

-- Each line of the recipe takes a positive amount, by a rule of the database.
abbrev pub Takes : List RecipeLine → Type 0
Takes rs = All (λ r. 0 < r.qty_per_serving) rs

-- The recipe can be made this often from the stock.
abbrev pub Makes : ℕ → List RecipeLine → Type 0
Makes k rs = All (λ r. k * r.qty_per_serving ≤ r.material_stock) rs

least_servings-Makes :
    (k n : ℕ) (rs : List RecipeLine) → Takes rs → (k ≤ least_servings n rs) ↔ ((k ≤ n) × Makes k rs)
unfolding least_servings
least_servings-Makes k n [] t = (λ h. (h, tt), λ h. h.0)
least_servings-Makes k n (r ∷ rs) (q, t) =
    let step = least_servings-Makes k (min n (r.material_stock / r.qty_per_serving)) rs t in
    let fits = le-div_iff_mul-le {x = k} {y = r.material_stock} q in
    (
      λ h. let (a, b) = step.0 h in (omega arith, (fits.0 (omega arith), b)),
      λ (a, (b, c)). step.1 (min_bound (fits.1 b) a, c),
    )
  where
    min_bound : {x y : ℕ} → k ≤ x → k ≤ y → k ≤ min y x
    min_bound p q' = omega arith

-- The servings that are announced are the most that the recipe can be made from the stock.
pub servings_available-Makes :
    (k : ℕ) (rs : List RecipeLine) → rs ≢ [] → Takes rs → (k ≤ servings_available rs) ↔ Makes k rs
unfolding servings_available
servings_available-Makes k [] ne t = absurd (ne refl)
servings_available-Makes k (r ∷ rs) ne (q, t) =
    let step = least_servings-Makes k (r.material_stock / r.qty_per_serving) rs t in
    let fits = le-div_iff_mul-le {x = k} {y = r.material_stock} q in
    (λ h. let (a, b) = step.0 h in (fits.0 a, b), λ (b, c). step.1 (fits.1 b, c))
