-- ===== src/Prelude/Sort.antt =====
-- `[...map].sort(([a], [b]) => a.localeCompare(b))`: a table's entries in the order of their keys.
use Prim.Native.Nat.{ℕ, ◌+◌, ◌≤◌, ◌<◌}
use mathlib.Core.Path.{◌≡◌, refl, ◌∙◌}
use mathlib.Core.Option.{none, some}
use mathlib.Core.List.{[], ◌∷◌}
use native.Mathlib.Omega.{arith}
use zak_s_sizzling.Prelude.Tests.{◌==◌, leb, if◌then◌else◌}
use zak_s_sizzling.Prelude.Dict.{Dict, lookup, NodupKeys}

module _ {ℓ} {V : Type ℓ} where
  abbrev put_in_order : ℕ → V → Dict V → Dict V
  put_in_order k v [] = (k, v) ∷ []
  put_in_order k v ((j, w) ∷ d) =
      if leb k j then (k, v) ∷ ((j, w) ∷ d) else (j, w) ∷ put_in_order k v d

  unfoldable pub sort_by_key : Dict V → Dict V
  sort_by_key [] = []
  sort_by_key ((k, v) ∷ d) = put_in_order k v (sort_by_key d)

  -- Every key is above the bound, and the keys rise strictly.
  abbrev pub Rising : ℕ → Dict V → Type 0
  Rising low [] = Unit
  Rising low ((k, v) ∷ d) = (low ≤ k) × Rising (k + 1) d

  -- Sorting keeps what each key is looked up to, where no key occurs twice.
  lookup-put_in_order :
      (k j : ℕ) (v : V) (d : Dict V)
      → lookup k d ≡ none
      → lookup j (put_in_order k v d) ≡ (if k == j then some v else lookup j d)
  lookup-put_in_order k j v [] h = refl
  lookup-put_in_order k j v ((i, w) ∷ d) h = ground (arith, lookup-put_in_order k j v d)

  pub lookup-sort_by_key :
      (j : ℕ) (d : Dict V) → NodupKeys d → lookup j (sort_by_key d) ≡ lookup j d
  unfolding sort_by_key
  lookup-sort_by_key j [] h = refl
  lookup-sort_by_key j ((k, v) ∷ d) h = ground (
    arith,
    lookup-put_in_order k j v (sort_by_key d),
    lookup-sort_by_key k d h.1,
    lookup-sort_by_key j d h.1,
  )

  Rising-weaken : (low low' : ℕ) (d : Dict V) → low' ≤ low → Rising low d → Rising low' d
  Rising-weaken low low' [] h r = tt
  Rising-weaken low low' ((k, v) ∷ d) h r = (omega arith, r.1)

  put_in_order-Rising :
      (low k : ℕ) (v : V) (d : Dict V)
      → low ≤ k
      → lookup k d ≡ none
      → Rising low d
      → Rising low (put_in_order k v d)
  put_in_order-Rising low k v [] h fresh r = (h, tt)
  put_in_order-Rising low k v ((j, w) ∷ d) h fresh r =
      ground (arith, put_in_order-Rising (j + 1) k v d, Rising-weaken (j + 1) (k + 1) d)

  -- The entries come out in strictly rising order of their keys.
  pub sort_by_key-Rising : (d : Dict V) → NodupKeys d → Rising 0 (sort_by_key d)
  unfolding sort_by_key
  sort_by_key-Rising [] h = tt
  sort_by_key-Rising ((k, v) ∷ d) h =
      put_in_order-Rising 0 k v (sort_by_key d) (omega arith) (lookup-sort_by_key k d h.1 ∙ h.0)
        (sort_by_key-Rising d h.1)

  Rising-lookup : (low k : ℕ) (d : Dict V) → k < low → Rising low d → lookup k d ≡ none
  Rising-lookup low k [] h r = refl
  Rising-lookup low k ((j, v) ∷ d) h r = ground (arith, Rising-lookup (j + 1) k d)

  Rising-NodupKeys : (low : ℕ) (d : Dict V) → Rising low d → NodupKeys d
  Rising-NodupKeys low [] r = tt
  Rising-NodupKeys low ((k, v) ∷ d) r =
      (Rising-lookup (k + 1) k d (omega arith) r.1, Rising-NodupKeys (k + 1) d r.1)

  pub sort_by_key-NodupKeys : (d : Dict V) → NodupKeys d → NodupKeys (sort_by_key d)
  sort_by_key-NodupKeys d h = Rising-NodupKeys 0 _ (sort_by_key-Rising d h)
