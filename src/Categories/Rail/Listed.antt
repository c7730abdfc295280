-- ===== src/Categories/Rail/Listed.antt =====
-- After a reordering the categories are listed in the order that was asked for.
use zak_s_sizzling.Prelude.Ids.{includes-all}
use zak_s_sizzling.Categories.Rail.Climbs.{
  All-lookup, Climbs, HasPlace, in_rail_order-All, in_rail_order-Climbs, lookup-in_rail_order,
}
use zak_s_sizzling.Categories.Rail.{
  every-includes, lookup-number_from, includes-get_elem?, lookup-keys,
}
use zak_s_sizzling.Categories.{
  set_order, CategoryDto, number_from, includes_id, all_different, names_every, reorder_categories,
  in_rail_order, list_categories, to_category_dto,
}
use zak_s_sizzling.Prelude.{
  ==_iff, ap, ◌∙◌, All, ℕ, zero, suc, ◌+◌, ◌<◌, ◌≤◌, ◌≡◌, refl, true, some, List, [], ◌∷◌, ◌==◌,
  arith, length, get_elem?, Bool-cases, Option-cases, inl, inr, map,
}
use zak_s_sizzling.Prelude.Dict.{insert-NodupKeys, Dict, lookup, keys, NodupKeys}
use zak_s_sizzling.Store.{lookup-modify, modify, Db, Category, ok}

Climbs-lookup :
    (low i : ℕ) (c : Category) (rs : Dict Category)
    → Climbs low rs
    → lookup i rs ≡ some c
    → low ≤ c.sort_order
Climbs-lookup low i c [] r l = cc
Climbs-lookup low i c ((j, d) ∷ rs) r l = ground (arith, Climbs-lookup (d.sort_order + 1) i c rs)

Climbs-weaken : (low low' : ℕ) (rs : Dict Category) → low' ≤ low → Climbs low rs → Climbs low' rs
Climbs-weaken low low' [] h r = tt
Climbs-weaken low low' ((i, c) ∷ rs) h r = (omega (arith, r.0), r.1)

-- Past the first place, the list's tail says where a row stands.
HasPlace-tail :
    (n low i : ℕ) (ids : List ℕ) (rs : Dict Category)
    → n < low
    → Climbs low rs
    → All (HasPlace n (i ∷ ids)) rs
    → All (HasPlace (n + 1) ids) rs
HasPlace-tail n low i ids [] l r a = tt
HasPlace-tail n low i ids ((j, d) ∷ rs) l r ((zero, g, e), a) = absurd (omega (arith, r.0))
HasPlace-tail n low i ids ((j, d) ∷ rs) l r ((suc k, g, e), a) =
    ((k, g, omega arith), HasPlace-tail n (d.sort_order + 1) i ids rs (omega (arith, r.0)) r.1 a)

abbrev row_ids : Dict Category → List ℕ
row_ids rs = map (λ (r : ℕ × Category). r.0) rs

-- Every listed id has its row.
abbrev Found : ℕ → List ℕ → Dict Category → Type 0
Found n ids rs =
    (k id : ℕ)
    → get_elem? ids k ≡ some id
    → (c : Category) × (lookup id rs ≡ some c) × (c.sort_order ≡ n + k)

row_ids-eq :
    (n : ℕ) (ids : List ℕ) (rs : Dict Category)
    → all_different ids ≡ true
    → Climbs n rs
    → All (HasPlace n ids) rs
    → Found n ids rs
    → row_ids rs ≡ ids
row_ids-eq n [] [] d r a f = refl
row_ids-eq n [] ((j, e) ∷ rs) d r a f = let (k, g, s) = a.0 in cc
row_ids-eq n (i ∷ ids) [] d r a f = let (c, l, s) = f 0 i refl in cc
row_ids-eq n (i ∷ ids) ((j, e) ∷ rs) d r a f =
    let (c, l, s) = f 0 i refl in
    elim (Bool-cases (j == i)) [
      | inr other ↦ absurd (
          omega
            (arith, Climbs-lookup (e.sort_order + 1) i c rs r.1 (ground (arith, l, other)), r.0, s))
      | inl same ↦
          let first : e.sort_order ≡ n + 0 = ground (arith, l, s, same) in
          let rest =
            row_ids-eq (n + 1) ids rs (ground (arith, d))
              ((Climbs-weaken (e.sort_order + 1) (n + 1) rs (omega arith) r.1))
              (HasPlace-tail n (e.sort_order + 1) i ids rs (omega arith) r.1 a.1)
              (λ k id g.
                let (c', l', s') = f (suc k) id g in
                (
                  c',
                  ground (arith, l', same, d, ==_iff j i, includes-get_elem? k id ids g),
                  omega (arith, s'),
                )) in
          ground (arith, rest, same)
    ]

modify-NodupKeys :
    (i : ℕ) (f : Category → Category) (cs : Dict Category)
    → NodupKeys cs
    → NodupKeys (modify i f cs)
modify-NodupKeys i f cs h = elim (Option-cases (lookup i cs)) [
  | inl e ↦ rw (e, modify) h
  | inr (c, e) ↦ rw (e, modify) (insert-NodupKeys i (f c) cs h)
]

number_from-NodupKeys :
    (n : ℕ) (ids : List ℕ) (cs : Dict Category) → NodupKeys cs → NodupKeys (number_from n ids cs)
unfolding number_from
number_from-NodupKeys n [] cs h = h
number_from-NodupKeys n (i ∷ ids) cs h =
    number_from-NodupKeys (n + 1) ids (modify i (set_order n) cs)
      (modify-NodupKeys i (set_order n) cs h)

keys-lookup :
    (i : ℕ) (cs : Dict Category) (c : Category)
    → lookup i cs ≡ some c
    → includes_id (keys cs) i ≡ true
keys-lookup i [] c h = cc
keys-lookup i ((j, d) ∷ cs) c h = ground (arith, keys-lookup i cs c)

lookup-number_from-some :
    (n i : ℕ) (ids : List ℕ) (cs : Dict Category) (c : Category)
    → lookup i (number_from n ids cs) ≡ some c
    → includes_id (keys cs) i ≡ true
unfolding number_from
lookup-number_from-some n i [] cs c h = keys-lookup i cs c h
lookup-number_from-some n i (j ∷ ids) cs c h =
    let m = lookup-number_from-some (n + 1) i ids (modify j (set_order n) cs) c h in
    let (d, l) = lookup-keys i (modify j (set_order n) cs) m in
    elim (Option-cases (lookup i cs)) [
      | inl e ↦ ground (arith, l, e, lookup-modify j i (set_order n) cs)
      | inr (b, e) ↦ keys-lookup i cs b e
    ]

position : (i : ℕ) (ids : List ℕ) → includes_id ids i ≡ true → (k : ℕ) × (get_elem? ids k ≡ some i)
position i [] h = cc
position i (j ∷ ids) h = elim (Bool-cases (j == i)) [
  | inl e ↦ (0, ground (arith, e))
  | inr e ↦ let (k, g) = position i ids (ground (arith, h, e)) in (suc k, g)
]

length-keys : (cs : Dict Category) → length (keys cs) ≡ length cs
length-keys [] = refl
length-keys ((i, c) ∷ cs) = omega (arith, length-keys cs)

module _ (ids : List ℕ) (cs : Dict Category) (distinct : NodupKeys cs)
    (named : names_every ids cs ≡ true) where
  number_from-Found : Found 1 ids (number_from 1 ids cs)
  number_from-Found k id g =
      let (c, l) =
        lookup-keys id cs
          (every-includes k id ids (includes_id (keys cs)) g (ground (arith, named))) in
      (set_order (1 + k) c, lookup-number_from 1 k id ids cs c g (ground (arith, named)) l, refl)

  number_from-HasPlace : All (HasPlace 1 ids) (number_from 1 ids cs)
  number_from-HasPlace =
      All-lookup (HasPlace 1 ids) (number_from 1 ids cs) (number_from-NodupKeys 1 ids cs distinct)
        (λ i c l.
          let known =
            includes-all i ids (keys cs) (ground (arith, named, length-keys cs))
              (ground (arith, named)) (ground (arith, named))
              (lookup-number_from-some 1 i ids cs c l) in
          let (k, g) = position i ids known in
          let (d, m, e) = number_from-Found k i g in (k, g, ground (arith, l, m, e)))

  listed : row_ids (in_rail_order (number_from 1 ids cs)) ≡ ids
  listed =
      row_ids-eq 1 ids (in_rail_order (number_from 1 ids cs)) (ground (arith, named))
        (in_rail_order-Climbs 1 ids (number_from 1 ids cs) (number_from-NodupKeys 1 ids cs distinct)
          number_from-HasPlace)
        (in_rail_order-All (HasPlace 1 ids) (number_from 1 ids cs) number_from-HasPlace)
        (λ k id g.
          let (c, l, e) = number_from-Found k id g in
          (
            c,
            lookup-in_rail_order id (number_from 1 ids cs) (number_from-NodupKeys 1 ids cs distinct)
                ∙ l,
            e,
          ))

dto_ids :
    (db : Db) (rs : Dict Category)
    → map (λ (d : CategoryDto). d.id) (map (to_category_dto db) rs) ≡ row_ids rs
unfolding to_category_dto
dto_ids db [] = refl
dto_ids db ((i, c) ∷ rs) = ap (λ t. i ∷ t) (dto_ids db rs)

-- A new order that is taken is the order in which the categories are then listed: the answer has
-- every id once, each where the request put it.
pub reorder_categories-listed :
    (ids : List ℕ) (db db' : Db) (dtos : List CategoryDto)
    → NodupKeys db.categories
    → reorder_categories ids db ≡ (ok dtos, db')
    → map (λ (d : CategoryDto). d.id) dtos ≡ ids
unfolding reorder_categories list_categories
reorder_categories-listed ids db db' dtos n h =
    let named : names_every ids db.categories ≡ true = ground arith in
    let answer : dtos ≡ list_categories db' = ground arith in
    let tables : db'.categories ≡ number_from 1 ids db.categories = ground arith in
    ap (map (λ (d : CategoryDto). d.id)) answer
    ∙ dto_ids db' (in_rail_order db'.categories)
    ∙ ap (λ (cs : Dict Category). row_ids (in_rail_order cs)) tables
    ∙ listed ids db.categories n named
