-- ===== src/Orders/Attention/Settled.antt =====
-- What settling an order that needed attention does.
use zak_s_sizzling.Payments.Confirm.{is_cancelled, paid_row, is_paid}
use zak_s_sizzling.Store.{
  PaymentStatus, settle, Db, Order, Payment, Error, Result-cases, ok, err, update_where,
  lookup-update_where, revised,
}
use zak_s_sizzling.Prelude.{
  ℕ, ◌≡◌, refl, Bool, true, false, not, ◌&&◌, Option, none, some, arith, ◌==◌, if◌then◌else◌,
  Option-cases, Bool-cases, inl, inr, is_some,
}
use zak_s_sizzling.Prelude.Text.{Text, text_eq_iff}
use zak_s_sizzling.Prelude.Dict.{lookup, insert, lookup-insert}
use zak_s_sizzling.Orders.Dto.{OrderDto}
use zak_s_sizzling.Orders.Attention.{
  Resolution, money_to_settle, is_placed_again, is_refunded, same_note, has_note, sorted_out,
  clear_note, refund, record_refund, check_resolution, sort_out, mark_attention_sorted_out,
}

same_note_eq : (a b : Option Text) → same_note a b ≡ true → a ≡ b
same_note_eq none none h = refl
same_note_eq none (some b) h = ground arith
same_note_eq (some a) none h = ground arith
same_note_eq (some a) (some b) h = ground (arith, text_eq_iff a b)

-- What a successful transaction has done.
pub record SortedOut (now id : ℕ) (seen : Option Text) (resolution : Option Resolution)
    (db db' : Db) : Type 0 where
  pub order : Order
  pub has_order : lookup id db.orders ≡ some order
  pub checked : check_resolution order (lookup id db.payments) resolution ≡ ok tt
  pub same : has_note seen order ≡ true
  pub tables : db' ≡ record db {
    orders = insert id (sorted_out seen (is_placed_again resolution) order) db.orders;
    payments =
        if money_to_settle order (lookup id db.payments) && is_refunded resolution
        then (update_where id (λ (p : Payment). is_paid p.status) (refund now) db.payments).0
        else db.payments;
  }

sort_out-SortedOut :
    (now id : ℕ) (seen : Option Text) (resolution : Option Resolution) (db db' : Db)
    → sort_out now id seen resolution db ≡ (ok tt, db')
    → SortedOut now id seen resolution db db'
unfolding sort_out clear_note record_refund
sort_out-SortedOut now id seen resolution db db' r = elim (Option-cases (lookup id db.orders)) [
  | inl e ↦ ground (arith, e)
  | inr (o, e) ↦ elim (Result-cases (check_resolution o (lookup id db.payments) resolution)) [
    | inr (x, c) ↦ ground (arith, e, c)
    | inl (v, c) ↦ elim (Bool-cases (has_note seen o)) [
      | inr n ↦ ground (arith, e, c, n)
      | inl n ↦ record {
        order = o;
        has_order = e;
        checked = c;
        same = n;
        tables = ground (arith, e, c, n);
      }
    ]
  ]
]

pub sorted_out-status :
    (seen : Option Text) (again : Bool) (o : Order) → (sorted_out seen again o).status ≡ o.status
unfolding sorted_out
sorted_out-status seen again o = refl

mark_attention_sorted_out_rows :
    (now id : ℕ) (seen : Option Text) (resolution : Option Resolution) (db db' : Db)
    (dto : Option OrderDto) (j : ℕ)
    → mark_attention_sorted_out now id seen resolution db ≡ (ok dto, db')
    → (o : Order) × (lookup id db.orders ≡ some o)
      × (o.stock_issue ≡ true)
      × (o.stock_issue_note ≡ seen)
      × ((money_to_settle o (lookup id db.payments) && not (is_some resolution)) ≡ false)
      × (lookup j db'.orders ≡ (
          if id == j
          then some (sorted_out seen (is_placed_again resolution) o)
          else lookup j db.orders))
      × (lookup j db'.payments ≡ (
          if id == j && (money_to_settle o (lookup id db.payments) && is_refunded resolution)
          then revised (λ (p : Payment). is_paid p.status) (refund now) (lookup j db.payments)
          else lookup j db.payments))
unfolding mark_attention_sorted_out check_resolution
mark_attention_sorted_out_rows now id seen resolution db db' dto j r =
    elim (Result-cases (sort_out now id seen resolution db).0) [
      | inr (x, e) ↦ ground (arith, e)
      | inl (v, e) ↦
          let mid = (sort_out now id seen resolution db).1 in
          let s = sort_out-SortedOut now id seen resolution db mid (ground (arith, e)) in
          (
            s.order,
            s.has_order,
            ground (arith, s.same),
            same_note_eq s.order.stock_issue_note seen (ground (arith, s.same)),
            ground (arith, s.checked),
            ground (
              arith,
              e,
              s.tables,
              lookup-insert id j (sorted_out seen (is_placed_again resolution) s.order) db.orders,
            ),
            ground (
              arith,
              e,
              s.tables,
              lookup-update_where id j (λ (p : Payment). is_paid p.status) (refund now) db.payments,
            ),
          )
    ]

mark_attention_sorted_out_frame :
    (now id : ℕ) (seen : Option Text) (resolution : Option Resolution) (db db' : Db)
    (dto : Option OrderDto)
    → mark_attention_sorted_out now id seen resolution db ≡ (ok dto, db')
    → db' ≡ record db { orders = db'.orders; payments = db'.payments; events = db'.events }
unfolding mark_attention_sorted_out
mark_attention_sorted_out_frame now id seen resolution db db' dto r =
    elim (Result-cases (sort_out now id seen resolution db).0) [
      | inr (x, e) ↦ ground (arith, e)
      | inl (v, e) ↦
          let mid = (sort_out now id seen resolution db).1 in
          let s = sort_out-SortedOut now id seen resolution db mid (ground (arith, e)) in
          ground (arith, e, s.tables)
    ]

-- The payment after the call: refunded now, if it was paid and is to be.
abbrev pub refunded_row : ℕ → Bool → Option Payment → Option Payment
refunded_row now due none = none
refunded_row now due (some p) =
    if due && is_paid p.status
    then some (record p { status = PaymentStatus.refunded; refunded_at = some now })
    else some p

-- A call that succeeds: the order was flagged with exactly the note that staff read, and now it is
-- not flagged, its status as it was; a cancelled order that was paid came with a resolution, and its
-- payment says that it was refunded now exactly when the resolution does; every other order and
-- payment is as it was, and no other table changes.
pub mark_attention_sorted_out_lem :
    (now id : ℕ) (seen : Option Text) (resolution : Option Resolution) (db db' : Db)
    (dto : Option OrderDto) (j : ℕ)
    → mark_attention_sorted_out now id seen resolution db ≡ (ok dto, db')
    → (o : Order) × (o' : Order) × (lookup id db.orders ≡ some o)
      × (o.stock_issue ≡ true)
      × (o.stock_issue_note ≡ seen)
      × ((is_cancelled o.status && (paid_row (lookup id db.payments) && not (is_some resolution)))
          ≡ false)
      × (lookup j db'.orders ≡ (if id == j then some o' else lookup j db.orders))
      × (o'.stock_issue ≡ false)
      × (o' ≡ record o { stock_issue = false; stock_issue_note = o'.stock_issue_note })
      × (lookup j db'.payments
          ≡ refunded_row now
              ((id == j)
                && (is_cancelled o.status
                    && (paid_row (lookup id db.payments) && is_refunded resolution)))
              (lookup j db.payments))
      × (db' ≡ record db { orders = db'.orders; payments = db'.payments; events = db'.events })
unfolding sorted_out
mark_attention_sorted_out_lem now id seen resolution db db' dto j r =
    let (o, l, issue, n, settle, row, pay) =
      mark_attention_sorted_out_rows now id seen resolution db db' dto j r in
    (
      o,
      sorted_out seen (is_placed_again resolution) o,
      l,
      issue,
      n,
      ground (arith, settle),
      row,
      refl,
      refl,
      elim (Option-cases (lookup j db.payments)) [
        | inl e ↦ ground (arith, pay, e)
        | inr (p, e) ↦ ground (arith, pay, e)
      ],
      mark_attention_sorted_out_frame now id seen resolution db db' dto r,
    )

-- A call that is refused leaves everything as it was.
pub mark_attention_sorted_out_rollback :
    (now id : ℕ) (seen : Option Text) (resolution : Option Resolution) (db db' : Db) (e : Error)
    → mark_attention_sorted_out now id seen resolution db ≡ (err e, db')
    → db' ≡ db
unfolding mark_attention_sorted_out
mark_attention_sorted_out_rollback now id seen resolution db db' e r =
    elim (Result-cases (sort_out now id seen resolution db).0) [
      | inr (x, h) ↦ ground (arith, h)
      | inl (v, h) ↦ ground (arith, h)
    ]
