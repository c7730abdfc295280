-- ===== src/Categories/Rail/Climbs.antt =====
-- The rail's rows rise with their places.
use zak_s_sizzling.Prelude.{
  All, ℕ, ◌+◌, ◌≤◌, ◌≡◌, ◌≢◌, refl, none, some, List, [], ◌∷◌, ◌==◌, if◌then◌else◌, arith,
  get_elem?, Bool-cases, inl, inr,
}
use zak_s_sizzling.Prelude.Dict.{Dict, lookup, NodupKeys}
use zak_s_sizzling.Store.{Category}
use zak_s_sizzling.Categories.{put_in_rail, in_rail_order, comes_first}

-- The places rise along the rows, from `low` on.
abbrev pub Climbs : ℕ → Dict Category → Type 0
Climbs low [] = Unit
Climbs low ((i, c) ∷ rs) = (low ≤ c.sort_order) × Climbs (c.sort_order + 1) rs

-- No row has this place.
abbrev pub Vacant : ℕ → Dict Category → Type 0
Vacant n rs = All (λ (r : ℕ × Category). r.1.sort_order ≢ n) rs

pub put_in_rail-Climbs :
    (low i : ℕ) (c : Category) (rs : Dict Category)
    → low ≤ c.sort_order
    → Vacant c.sort_order rs
    → Climbs low rs
    → Climbs low (put_in_rail (i, c) rs)
unfolding put_in_rail
put_in_rail-Climbs low i c [] h v r = (h, tt)
put_in_rail-Climbs low i c ((j, d) ∷ rs) h v r =
    ground (arith, put_in_rail-Climbs (d.sort_order + 1) i c rs)

pub lookup-put_in_rail :
    (i j : ℕ) (c : Category) (rs : Dict Category)
    → lookup i rs ≡ none
    → lookup j (put_in_rail (i, c) rs) ≡ (if i == j then some c else lookup j rs)
unfolding put_in_rail
lookup-put_in_rail i j c [] h = refl
lookup-put_in_rail i j c ((k, d) ∷ rs) h = ground (arith, lookup-put_in_rail i j c rs)

pub lookup-in_rail_order :
    (j : ℕ) (rs : Dict Category) → NodupKeys rs → lookup j (in_rail_order rs) ≡ lookup j rs
unfolding in_rail_order
lookup-in_rail_order j [] h = refl
lookup-in_rail_order j ((i, c) ∷ rs) h = ground (
  arith,
  lookup-put_in_rail i j c (in_rail_order rs),
  lookup-in_rail_order i rs h.1,
  lookup-in_rail_order j rs h.1,
)

module _ (P : ℕ × Category → Type 0) where
  pub put_in_rail-All :
      (r : ℕ × Category) (rs : Dict Category) → P r → All P rs → All P (put_in_rail r rs)
  unfolding put_in_rail
  put_in_rail-All r [] h a = (h, tt)
  put_in_rail-All r (s ∷ rs) h a = elim (Bool-cases (comes_first r s)) [
    | inl e ↦ rw e (h, a)
    | inr e ↦ rw e (a.0, put_in_rail-All r rs h a.1)
  ]

  pub in_rail_order-All : (rs : Dict Category) → All P rs → All P (in_rail_order rs)
  unfolding in_rail_order
  in_rail_order-All [] a = tt
  in_rail_order-All (r ∷ rs) a = put_in_rail-All r (in_rail_order rs) a.0 (in_rail_order-All rs a.1)

  -- What holds of every row that a lookup finds holds of all rows, where no id occurs twice.
  pub All-lookup :
      (rs : Dict Category)
      → NodupKeys rs
      → ((i : ℕ) (c : Category) → lookup i rs ≡ some c → P (i, c))
      → All P rs
  All-lookup [] n h = tt
  All-lookup ((j, d) ∷ rs) n h =
      (h j d (ground arith), All-lookup rs n.1 (λ i c l. h i c (ground (arith, l, n.0))))

-- The row's id stands in the list, and the row's place says where.
abbrev pub HasPlace : ℕ → List ℕ → ℕ × Category → Type 0
HasPlace n ids (i, c) = (k : ℕ) × (get_elem? ids k ≡ some i) × (c.sort_order ≡ n + k)

pub HasPlace-Vacant :
    (n : ℕ) (ids : List ℕ) (i : ℕ) (c : Category) (rs : Dict Category)
    → HasPlace n ids (i, c)
    → lookup i rs ≡ none
    → All (HasPlace n ids) rs
    → Vacant c.sort_order rs
HasPlace-Vacant n ids i c [] h l a = tt
HasPlace-Vacant n ids i c ((j, d) ∷ rs) (k, g, e) l ((k', g', e'), a) = (
  λ same.
      let at : k' ≡ k = omega arith in
      let there : get_elem? ids k ≡ some j = rw (← at) g' in ground (arith, there, g, l),
  HasPlace-Vacant n ids i c rs (k, g, e) (ground (arith, l)) a,
)

pub in_rail_order-Climbs :
    (n : ℕ) (ids : List ℕ) (rs : Dict Category)
    → NodupKeys rs
    → All (HasPlace n ids) rs
    → Climbs n (in_rail_order rs)
unfolding in_rail_order
in_rail_order-Climbs n ids [] d a = tt
in_rail_order-Climbs n ids ((i, c) ∷ rs) d (p, a) =
    put_in_rail-Climbs n i c (in_rail_order rs) (let (k, g, e) = p in omega arith)
      (in_rail_order-All (λ r. r.1.sort_order ≢ c.sort_order) rs
        (HasPlace-Vacant n ids i c rs p d.0 a))
      (in_rail_order-Climbs n ids rs d.1 a)
