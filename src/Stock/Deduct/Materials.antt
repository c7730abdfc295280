-- ===== src/Stock/Deduct/Materials.antt =====
-- The second loop of the deduction against the raw materials as they were before the loop.
use mathlib.Core.List.{append-nil, append_assoc}
use zak_s_sizzling.Prelude.{
  ℕ, ◌-◌, ◌≡◌, refl, ap, ◌∙◌, true, Option, none, some, List, [], ◌∷◌, ◌++◌, if◌then◌else◌, arith,
  leb, or_else, inl, inr, Option-cases, is_some,
}
use zak_s_sizzling.Prelude.Dict.{Dict, lookup, NodupKeys}
use zak_s_sizzling.Store.{
  Shortage, RawMaterial, Movement, ok, update_where, revised, lookup-update_where,
  update_where-count,
}
use zak_s_sizzling.Stock.Needs.{MaterialNeed, material_shortage, short_materials}
use zak_s_sizzling.Stock.Deduct.{
  covers_material, take_material, MaterialTables, sale_row, deduct_material, deduct_materials,
}

abbrev step : ℕ → MaterialNeed → Dict RawMaterial → Dict RawMaterial
step id need ms = (update_where id (covers_material need.qty) (take_material need.qty) ms).0

-- What the loop leaves of a raw material's row.
abbrev pub taken : Option MaterialNeed → Option RawMaterial → Option RawMaterial
taken none r = r
taken (some need) r = revised (covers_material need.qty) (take_material need.qty) r

-- The log rows and the shortages of one need, from the row before the loop.
abbrev pub logged : ℕ → ℕ → ℕ → Option RawMaterial → List Movement
logged order_id id qty none = []
logged order_id id qty (some m) =
    if leb qty m.stock_qty then sale_row order_id id qty (m.stock_qty - qty) ∷ [] else []

abbrev pub sale_rows : ℕ → Dict MaterialNeed → Dict RawMaterial → List Movement
sale_rows order_id [] ms = []
sale_rows order_id ((id, need) ∷ needs) ms =
    logged order_id id need.qty (lookup id ms) ++ sale_rows order_id needs ms

abbrev pub short : ℕ → MaterialNeed → Option RawMaterial → List Shortage
short id need none = []
short id need (some m) =
    if leb need.qty m.stock_qty then [] else material_shortage id need m.stock_qty ∷ []

-- One need, whose row is there.
deduct_material_lem :
    (order_id id : ℕ) (need : MaterialNeed) (t : MaterialTables) (m : RawMaterial)
    → lookup id t.raw_materials ≡ some m
    → deduct_material order_id id need t
      ≡ ok (record {
        raw_materials = step id need t.raw_materials;
        movements = t.movements ++ logged order_id id need.qty (some m);
        shortages = t.shortages ++ short id need (some m);
      })
unfolding deduct_material
deduct_material_lem order_id id need t m e = ground (
  arith,
  lookup-update_where id id (covers_material need.qty) (take_material need.qty) t.raw_materials,
  update_where-count id (covers_material need.qty) (take_material need.qty) t.raw_materials,
  append-nil t.movements,
  append-nil t.shortages,
)

abbrev pub all_short : Dict MaterialNeed → Dict RawMaterial → List Shortage
all_short [] ms = []
all_short ((id, need) ∷ needs) ms = short id need (lookup id ms) ++ all_short needs ms

pub after : Dict MaterialNeed → Dict RawMaterial → Dict RawMaterial
after [] ms = ms
after ((id, need) ∷ needs) ms = after needs (step id need ms)

pub lookup-after :
    (j : ℕ) (needs : Dict MaterialNeed) (ms : Dict RawMaterial)
    → NodupKeys needs
    → lookup j (after needs ms) ≡ taken (lookup j needs) (lookup j ms)
unfolding after
lookup-after j [] ms h = refl
lookup-after j ((id, need) ∷ needs) ms h = ground (
  arith,
  lookup-after j needs (step id need ms) h.1,
  lookup-update_where id j (covers_material need.qty) (take_material need.qty) ms,
)

-- Every raw material that is needed has its row.
abbrev pub Present : Dict MaterialNeed → Dict RawMaterial → Type 0
Present [] ms = Unit
Present ((id, need) ∷ needs) ms = (is_some (lookup id ms) ≡ true) × Present needs ms

-- A step on one raw material leaves the rows, the log and the shortages of the others alone.
module _ (id : ℕ) (need : MaterialNeed) (ms : Dict RawMaterial) where
  Present-step : (needs : Dict MaterialNeed) → Present needs ms → Present needs (step id need ms)
  Present-step [] h = tt
  Present-step ((j, n) ∷ needs) h = ground (
    arith,
    Present-step needs h.1,
    lookup-update_where id j (covers_material need.qty) (take_material need.qty) ms,
  )

  sale_rows-step :
      (order_id : ℕ) (needs : Dict MaterialNeed)
      → lookup id needs ≡ none
      → sale_rows order_id needs (step id need ms) ≡ sale_rows order_id needs ms
  sale_rows-step order_id [] h = refl
  sale_rows-step order_id ((j, n) ∷ needs) h = ground (
    arith,
    sale_rows-step order_id needs,
    lookup-update_where id j (covers_material need.qty) (take_material need.qty) ms,
  )

  all_short-step :
      (needs : Dict MaterialNeed)
      → lookup id needs ≡ none
      → all_short needs (step id need ms) ≡ all_short needs ms
  all_short-step [] h = refl
  all_short-step ((j, n) ∷ needs) h = ground (
    arith,
    all_short-step needs,
    lookup-update_where id j (covers_material need.qty) (take_material need.qty) ms,
  )

-- The whole loop, where every needed row is there: each row is taken from once, one log row for
-- each raw material that is covered, one shortage for each that is not.
pub deduct_materials_lem :
    (order_id : ℕ) (needs : Dict MaterialNeed) (t : MaterialTables)
    → NodupKeys needs
    → Present needs t.raw_materials
    → deduct_materials order_id needs t
      ≡ ok (record {
        raw_materials = after needs t.raw_materials;
        movements = t.movements ++ sale_rows order_id needs t.raw_materials;
        shortages = t.shortages ++ all_short needs t.raw_materials;
      })
unfolding deduct_materials after
deduct_materials_lem order_id [] t h p = rw (append-nil, append-nil)
deduct_materials_lem order_id ((id, need) ∷ needs) t h p =
    elim (Option-cases (lookup id t.raw_materials)) [
      | inl absent ↦ ground arith
      | inr (m, e) ↦
          rw (deduct_material_lem order_id id need t m e, deduct_materials)
            (deduct_materials_lem order_id needs _ h.1
                (Present-step id need t.raw_materials needs p.1)
              ∙ ap ok (
                  rw
                    (
                      e,
                      sale_rows-step id need t.raw_materials order_id needs h.0,
                      all_short-step id need t.raw_materials needs h.0,
                      append_assoc,
                      append_assoc,
                    )
                    refl))
    ]

-- The stock that a check is given: the quantity of each needed raw material.
abbrev pub Agrees : Dict MaterialNeed → Dict ℕ → Dict RawMaterial → Type 0
Agrees [] stock ms = Unit
Agrees ((id, need) ∷ needs) stock ms =
    ((m : RawMaterial) → lookup id ms ≡ some m → or_else (lookup id stock) 0 ≡ m.stock_qty)
    × Agrees needs stock ms

pub all_short-short_materials :
    (needs : Dict MaterialNeed) (stock : Dict ℕ) (ms : Dict RawMaterial)
    → Present needs ms
    → Agrees needs stock ms
    → all_short needs ms ≡ short_materials needs stock
unfolding short_materials
all_short-short_materials [] stock ms p a = refl
all_short-short_materials ((id, need) ∷ needs) stock ms p a = elim (Option-cases (lookup id ms)) [
  | inl absent ↦ ground arith
  | inr (m, e) ↦ ground (arith, e, a.0 m e, all_short-short_materials needs stock ms p.1 a.1)
]
