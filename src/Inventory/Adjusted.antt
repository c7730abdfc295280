-- ===== src/Inventory/Adjusted.antt =====
-- What a manual stock change does, and how it is logged.
use zak_s_sizzling.Prelude.{
  ℕ, ◌+◌, ◌-◌, ◌≤◌, ◌≡◌, Bool, none, some, arith, if◌then◌else◌, Option-cases, Bool-cases, inl, inr,
  is_some, or_else,
}
use zak_s_sizzling.Prelude.Int.{pos, pos_part, neg_part}
use zak_s_sizzling.Prelude.Dict.{lookup, lookup-insert_self}
use zak_s_sizzling.Store.{Db, Product, Inventory, Error, Result-cases, ok, err}
use zak_s_sizzling.Inventory.{
  StockChange, check_change, change_count, update_available, apply_in_transaction, apply_from,
  covers_delta, count_of,
}

-- The count that a change leads to.
abbrev pub changed_count : StockChange → ℕ → ℕ
changed_count c qty = elim c.set_qty [
  | some q ↦ q
  | none ↦ qty + pos_part (or_else c.delta (pos 0)) - neg_part (or_else c.delta (pos 0))
]

-- A change that goes through, whatever the earlier read had shown: the product's count is the one
-- that was set, or the difference on the count of now, which covers it, so it never goes below zero.
pub apply_in_transaction-count :
    (id : ℕ) (c : StockChange) (seen r : Inventory) (n : ℕ) (db db' : Db)
    → lookup id db.inventory ≡ some r
    → apply_in_transaction id c seen db ≡ (ok n, db')
    → (n ≡ changed_count c r.stock_qty)
      × (count_of (lookup id db'.inventory) ≡ n)
      × ((if is_some c.set_qty then 0 else neg_part (or_else c.delta (pos 0))) ≤ r.stock_qty)
unfolding apply_in_transaction change_count update_available
apply_in_transaction-count id c seen r n db db' l e =
    let d = or_else c.delta (pos 0) in
    elim (Option-cases c.set_qty) [
      | inr (q, h) ↦ (
        grind (arith, h, l, lookup-insert_self),
        grind (arith, h, l, lookup-insert_self),
        ground (arith, h),
      )
      | inl h ↦ elim (Bool-cases (covers_delta d r)) [
        | inr k ↦ ground (arith, h, l, k)
        | inl k ↦ elim (Option-cases c.min_stock_threshold) [
          | inl t ↦ (
            grind (arith, h, l, k, t, lookup-insert_self),
            grind (arith, h, l, k, t, lookup-insert_self),
            ground (arith, h, k),
          )
          | inr (m, t) ↦ (
            grind (arith, h, l, k, t, lookup-insert_self),
            grind (arith, h, l, k, t, lookup-insert_self),
            ground (arith, h, k),
          )
        ]
      ]
    ]

-- A change that is refused leaves everything as it was.
pub apply_from_rollback :
    (id : ℕ) (c : StockChange) (decrease_only : Bool) (p : Product) (seen : Inventory) (db db' : Db)
    (e : Error)
    → apply_from id c decrease_only p seen db ≡ (err e, db')
    → db' ≡ db
unfolding apply_from
apply_from_rollback id c decrease_only p seen db db' e r =
    elim (Result-cases (check_change c decrease_only p seen.stock_qty)) [
      | inr (x, h) ↦ ground (arith, h)
      | inl (v, h) ↦ elim (Result-cases (apply_in_transaction id c seen db).0) [
        | inr (x, k) ↦ ground (arith, h, k)
        | inl (n, k) ↦ ground (arith, h, k)
      ]
    ]
