-- ===== src/Stock/Deduct/Units.antt =====
-- The first loop of the deduction against the stock as it was before the loop.
use zak_s_sizzling.Prelude.{ℕ, ◌<◌, ◌≡◌, refl, Option, none, some, [], ◌∷◌, arith, or_else}
use zak_s_sizzling.Prelude.Dict.{Dict, lookup, NodupKeys}
use zak_s_sizzling.Store.{Inventory, update_where, revised, lookup-update_where, update_where-count}
use zak_s_sizzling.Stock.Needs.{UnitNeed, short_units}
use zak_s_sizzling.Stock.Deduct.{unit_stock, covers_unit, take_unit, deduct_units}

abbrev pub step : ℕ → UnitNeed → Dict Inventory → Dict Inventory
step id need inv = (update_where id (covers_unit need.qty) (take_unit need.qty) inv).0

-- What the loop leaves of a product's row: it takes the need if the row covers it.
abbrev pub taken : Option UnitNeed → Option Inventory → Option Inventory
taken none r = r
taken (some need) r = revised (covers_unit need.qty) (take_unit need.qty) r

pub lookup-deduct_units :
    (j : ℕ) (needs : Dict UnitNeed) (inv : Dict Inventory)
    → NodupKeys needs
    → lookup j (deduct_units needs inv).0 ≡ taken (lookup j needs) (lookup j inv)
unfolding deduct_units
lookup-deduct_units j [] inv h = refl
lookup-deduct_units j ((id, need) ∷ needs) inv h = ground (
  arith,
  lookup-deduct_units j needs (step id need inv) h.1,
  lookup-update_where id j (covers_unit need.qty) (take_unit need.qty) inv,
)

-- The stock that the loop is compared with: the count of each needed product before it.
abbrev pub Agrees : Dict UnitNeed → Dict ℕ → Dict Inventory → Type 0
Agrees [] stock inv = Unit
Agrees ((id, need) ∷ needs) stock inv =
    (or_else (lookup id stock) 0 ≡ unit_stock (lookup id inv)) × Agrees needs stock inv

Agrees-step :
    (id : ℕ) (need : UnitNeed) (needs : Dict UnitNeed) (stock : Dict ℕ) (inv : Dict Inventory)
    → lookup id needs ≡ none
    → Agrees needs stock inv
    → Agrees needs stock (step id need inv)
Agrees-step id need [] stock inv h a = tt
Agrees-step id need ((j, n) ∷ needs) stock inv h a = ground (
  arith,
  Agrees-step id need needs stock inv,
  lookup-update_where id j (covers_unit need.qty) (take_unit need.qty) inv,
)

abbrev pub NeedsSome : Dict UnitNeed → Type 0
NeedsSome [] = Unit
NeedsSome ((id, need) ∷ needs) = (0 < need.qty) × NeedsSome needs

-- The loop reports exactly the shortages that a check of the stock before it finds.
pub deduct_units-short_units :
    (needs : Dict UnitNeed) (stock : Dict ℕ) (inv : Dict Inventory)
    → NodupKeys needs
    → NeedsSome needs
    → Agrees needs stock inv
    → (deduct_units needs inv).1 ≡ short_units needs stock
unfolding deduct_units short_units
deduct_units-short_units [] stock inv h q a = refl
deduct_units-short_units ((id, need) ∷ needs) stock inv h q a = ground (
  arith,
  deduct_units-short_units needs stock (step id need inv) h.1 q.1,
  Agrees-step id need needs stock inv h.0 a.1,
  lookup-update_where id id (covers_unit need.qty) (take_unit need.qty) inv,
  update_where-count id (covers_unit need.qty) (take_unit need.qty) inv,
)
