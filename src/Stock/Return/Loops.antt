-- ===== src/Stock/Return/Loops.antt =====
-- Each loop of the return adds to every row what its need says, or fails on a missing row.
use zak_s_sizzling.Prelude.{ℕ, ◌+◌, ◌≡◌, [], ◌∷◌, arith, inl, inr, Option-cases}
use zak_s_sizzling.Prelude.Dict.{Dict, lookup, lookup-insert, NodupKeys}
use zak_s_sizzling.Store.{ok}
use zak_s_sizzling.Stock.Needs.{UnitNeed, unit_qty, MaterialNeed, material_qty}
use zak_s_sizzling.Stock.Deduct.{unit_stock}
use zak_s_sizzling.Stock.Deduct.Covered.{material_stock}
use zak_s_sizzling.Stock.Return.{
  ReturnLog, UnitTables, ReturnTables, return_units, return_materials, add_stock,
  add_material_stock,
}

pub unit_stock-return_units :
    (log : ReturnLog) (id : ℕ) (needs : Dict UnitNeed) (t t' : UnitTables)
    → NodupKeys needs
    → return_units log needs t ≡ ok t'
    → unit_stock (lookup id t'.inventory)
      ≡ unit_stock (lookup id t.inventory) + unit_qty (lookup id needs)
unfolding return_units
unit_stock-return_units log id [] t t' h e = ground arith
unit_stock-return_units log id ((j, need) ∷ needs) t t' h e =
    elim (Option-cases (lookup j t.inventory)) [
      | inl f ↦ ground arith
      | inr (r, f) ↦ ground (
        arith,
        f,
        lookup-insert j id (add_stock need.qty r) t.inventory,
        unit_stock-return_units log id needs _ t' h.1 (rw (f, return_units) at e),
      )
    ]

pub material_stock-return_materials :
    (log : ReturnLog) (id : ℕ) (needs : Dict MaterialNeed) (t t' : ReturnTables)
    → NodupKeys needs
    → return_materials log needs t ≡ ok t'
    → material_stock (lookup id t'.raw_materials)
      ≡ material_stock (lookup id t.raw_materials) + material_qty (lookup id needs)
unfolding return_materials
material_stock-return_materials log id [] t t' h e = ground arith
material_stock-return_materials log id ((j, need) ∷ needs) t t' h e =
    elim (Option-cases (lookup j t.raw_materials)) [
      | inl f ↦ ground arith
      | inr (m, f) ↦ ground (
        arith,
        f,
        lookup-insert j id (add_material_stock need.qty m) t.raw_materials,
        material_stock-return_materials log id needs _ t' h.1 (rw (f, return_materials) at e),
      )
    ]
