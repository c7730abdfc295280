-- ===== src/Stock/Needs/Entries.antt =====
-- What the entries of the needs inherit from the lines: their raw materials, and amounts above zero.
use zak_s_sizzling.Prelude.{
  ℕ, ◌<◌, ◌≡◌, true, Option, none, some, List, [], ◌∷◌, arith, All, is_some,
}
use zak_s_sizzling.Prelude.Dict.{Dict, lookup, lookup-insert}
use zak_s_sizzling.Store.{ok}
use zak_s_sizzling.Stock.Needs.{
  RecipeLine, StockLine, StockNeeds, UnitNeed, MaterialNeed, add_unit, add_material, add_materials,
  needs_from, no_needs, compute_stock_needs,
}

module _ (P : ℕ → Type 0) where
  abbrev pub Within : Dict MaterialNeed → Type 0
  Within ms = (id : ℕ) → is_some (lookup id ms) ≡ true → P id

  abbrev pub UsesOnly : List StockLine → Type 0
  UsesOnly ls = All (λ l. All (λ r. P r.raw_material_id) l.recipe_items) ls

  add_material-Within :
      (qty : ℕ) (r : RecipeLine) (ms : Dict MaterialNeed)
      → P r.raw_material_id
      → Within ms
      → Within (add_material qty r ms)
  unfolding add_material
  add_material-Within qty r ms p w id e = grind (arith, lookup-insert, w id)

  add_materials-Within :
      (qty : ℕ) (rs : List RecipeLine) (ms : Dict MaterialNeed)
      → All (λ r. P r.raw_material_id) rs
      → Within ms
      → Within (add_materials qty rs ms)
  unfolding add_materials
  add_materials-Within qty [] ms h w = w
  add_materials-Within qty (r ∷ rs) ms h w =
      add_materials-Within qty rs (add_material qty r ms) h.1 (add_material-Within qty r ms h.0 w)

  needs_from-Within :
      (n : StockNeeds) (ls : List StockLine) (m : StockNeeds) (id : ℕ)
      → UsesOnly ls
      → Within n.materials
      → needs_from n ls ≡ ok m
      → is_some (lookup id m.materials) ≡ true
      → P id
  unfolding needs_from
  needs_from-Within n [] m id u w e s = w id (ground arith)
  needs_from-Within n (l ∷ ls) m id u w e s = ground (
    arith,
    needs_from-Within (record n { units = add_unit l n.units }) ls m id u.1 w,
    needs_from-Within (record n { materials = add_materials l.qty l.recipe_items n.materials }) ls m
        id u.1 (add_materials-Within l.qty l.recipe_items n.materials u.0 w),
  )

  -- The raw materials that are needed are raw materials of the lines.
  pub compute_stock_needs-Within :
      (ls : List StockLine) (m : StockNeeds)
      → UsesOnly ls
      → compute_stock_needs ls ≡ ok m
      → Within m.materials
  unfolding compute_stock_needs
  compute_stock_needs-Within ls m u e id s = needs_from-Within no_needs ls m id u (λ i f. cc) e s

abbrev pub Positive : Option UnitNeed → Type 0
Positive none = Unit
Positive (some need) = 0 < need.qty

abbrev pub Ordered : List StockLine → Type 0
Ordered ls = All (λ l. 0 < l.qty) ls

add_unit-Positive :
    (l : StockLine) (us : Dict UnitNeed) (id : ℕ)
    → 0 < l.qty
    → Positive (lookup id us)
    → Positive (lookup id (add_unit l us))
unfolding add_unit
add_unit-Positive l us id p h = grind (arith, lookup-insert)

needs_from-Positive :
    (id : ℕ) (n : StockNeeds) (ls : List StockLine) (m : StockNeeds)
    → Ordered ls
    → Positive (lookup id n.units)
    → needs_from n ls ≡ ok m
    → Positive (lookup id m.units)
unfolding needs_from
needs_from-Positive id n [] m o h e = ground arith
needs_from-Positive id n (l ∷ ls) m o h e = ground (
  arith,
  needs_from-Positive id (record n { units = add_unit l n.units }) ls m o.1,
  needs_from-Positive id (record n { materials = add_materials l.qty l.recipe_items n.materials })
      ls m o.1,
  add_unit-Positive l n.units id o.0,
)

-- Where every line asks for at least one serving, so does every entry of the needs.
pub compute_stock_needs-Positive :
    (ls : List StockLine) (m : StockNeeds) (id : ℕ)
    → Ordered ls
    → compute_stock_needs ls ≡ ok m
    → Positive (lookup id m.units)
unfolding compute_stock_needs
compute_stock_needs-Positive ls m id o e = needs_from-Positive id no_needs ls m o tt e
