-- ===== src/Payments/Online/Taken.antt =====
-- A payment of the right amount: it is taken once, and never without the kitchen or the staff
-- knowing of it.
use zak_s_sizzling.Kitchen.{create_tasks}
use zak_s_sizzling.Stock.Deduct.{items_of, TouchedStock}
use zak_s_sizzling.Prelude.Dict.{lookup, insert}
use zak_s_sizzling.Store.{
  Db, Order, OrderStatus, Payment, PaymentStatus, Error, Result-cases, ok, err,
}
use zak_s_sizzling.Payments.AttentionNote.{add_attention_note}
use zak_s_sizzling.Payments.Online.{
  holds_note, take_and_fulfil, add_note_for_staff, take_and_flag, fulfil_if, rollback_note,
  record_online_payment, rescue, flag_for_staff, wrong_amount_note, is_some, not,
}
use zak_s_sizzling.Prelude.{
  ℕ, ◌≡◌, refl, true, false, Option, none, some, arith, ◌==◌, if◌then◌else◌, Option-cases,
  Bool-cases, inl, inr, ◌⊎◌, ==_refl,
}
use zak_s_sizzling.Prelude.Text.{Text}
use zak_s_sizzling.Orders.PrepTime.{set_estimate}
use zak_s_sizzling.Payments.Confirm.{
  Snapshot, PaidUpdate, PaidCreate, confirm, fulfil, announce_paid_order,
}
use zak_s_sizzling.Payments.Confirm.Once.{is_settled, mark_payment_paid_settled}
use zak_s_sizzling.Payments.Confirm.Fulfil.{fulfil-Fulfilled}
use zak_s_sizzling.Payments.Confirm.Mark.{
  IsMarked, SameRow, Marked, Marked-of, with_payment, mark_payment_paid_stale,
}
use zak_s_sizzling.Payments.Confirm.Paid.{announce_paid_order_frame}
use zak_s_sizzling.Payments.Online.Wrong.{noted, add_note_for_staff_lem}

-- A payment of the right amount is never taken again once the order's payment is settled: a repeated
-- delivery, or the kiosk's check after the webhook, changes nothing, whatever the earlier read of the
-- order had shown.
pub record_online_payment_settled :
    (now : ℕ) (s : Snapshot) (reference : Option Text) (u : PaidUpdate) (c : PaidCreate) (db : Db)
    → is_settled s.id db ≡ true
    → record_online_payment now s s.order.total_amount reference u c db ≡ (ok tt, db)
unfolding record_online_payment take_and_fulfil fulfil_if
record_online_payment_settled now s reference u c db h =
    ground (arith, mark_payment_paid_settled s u c db h, ==_refl s.order.total_amount)

-- A read that is wrong on whether the order has a payment row takes nothing.
pub record_online_payment_stale :
    (now : ℕ) (s : Snapshot) (reference : Option Text) (u : PaidUpdate) (c : PaidCreate) (db : Db)
    → is_some s.payment ≡ not (is_some (lookup s.id db.payments))
    → record_online_payment now s s.order.total_amount reference u c db ≡ (ok tt, db)
unfolding record_online_payment take_and_fulfil fulfil_if
record_online_payment_stale now s reference u c db h =
    ground (arith, mark_payment_paid_stale s u c db h, ==_refl s.order.total_amount)

-- The order is in the kitchen: it was pending, is confirmed with its estimate, and its tasks are
-- made.
abbrev pub Sent : ℕ → Snapshot → Db → Db → Type 0
Sent now s db db' =
    (o : Order) × (minutes : ℕ) × (lookup s.id db.orders ≡ some o)
    × (o.status ≡ OrderStatus.pending)
    × ((id : ℕ)
        → lookup id db'.orders ≡ (
            if s.id == id
            then some (set_estimate now minutes (confirm o))
            else lookup id db.orders))
    × (create_tasks (items_of s.id db.order_items) db.kitchen_tasks ≡ ok db'.kitchen_tasks)

-- An order that carries a note: it is flagged with it, or held it already and is as it was.
abbrev pub Told : Text → Order → Order → Type 0
Told note o o' =
    ((o'.stock_issue ≡ true)
      × (o'.stock_issue_note ≡ some (add_attention_note o.stock_issue_note o.stock_issue note))
      × (o'.status ≡ o.status))
    ⊎ ((holds_note o.stock_issue_note note ≡ true) × (o' ≡ o))

noted-Told : (note : Text) (o : Order) → Told note o (noted note o)
noted-Told note o = elim (Bool-cases (holds_note o.stock_issue_note note)) [
  | inl h ↦ inr (h, ground (arith, h))
  | inr h ↦ inl (ground (arith, h), ground (arith, h), ground (arith, h))
]

-- The order carries a note that tells staff what happened, and neither the stock nor the kitchen has
-- changed.
abbrev pub Flagged : Snapshot → Db → Db → Type 0
Flagged s db db' =
    (o : Order) × (o' : Order) × (e : Error) × (note : Text) × (rollback_note e ≡ some note)
    × (lookup s.id db.orders ≡ some o)
    × Told note o o'
    × ((id : ℕ) → lookup id db'.orders ≡ (if s.id == id then some o' else lookup id db.orders))
    × (db'.inventory ≡ db.inventory)
    × (db'.raw_materials ≡ db.raw_materials)
    × (db'.kitchen_tasks ≡ db.kitchen_tasks)

-- The row says that it is paid, with the fields of this confirmation.
abbrev pub Paid : Snapshot → PaidUpdate → PaidCreate → Db → Db → Type 0
Paid s u c db db' =
    (p : Payment) × (db'.payments ≡ insert s.id p db.payments)
    × (p.status ≡ PaymentStatus.paid)
    × IsMarked s u c (lookup s.id db.payments) p

take_and_fulfil_lem :
    (now : ℕ) (s : Snapshot) (u : PaidUpdate) (c : PaidCreate) (db : Db) (m : Marked s u c db)
    → take_and_fulfil now s u c db ≡ fulfil_if now s.id true (with_payment s.id m.payment db)
unfolding take_and_fulfil
take_and_fulfil_lem now s u c db m = ground (arith, m.step)

take_and_flag_lem :
    (s : Snapshot) (u : PaidUpdate) (c : PaidCreate) (note : Text) (db : Db) (m : Marked s u c db)
    → take_and_flag s u c note db ≡ add_note_for_staff s.id note (with_payment s.id m.payment db)
unfolding take_and_flag
take_and_flag_lem s u c note db m = ground (arith, m.step)

settle_payment-Sent :
    (now : ℕ) (s : Snapshot) (u : PaidUpdate) (c : PaidCreate) (t : TouchedStock) (db mid db' : Db)
    (m : Marked s u c db)
    → fulfil now s.id (with_payment s.id m.payment db) ≡ (ok t, mid)
    → db' ≡ (announce_paid_order s t mid).1
    → Paid s u c db db' × Sent now s db db'
settle_payment-Sent now s u c t db mid db' m r e =
    let f = fulfil-Fulfilled now s.id (with_payment s.id m.payment db) mid t r in
    let a = announce_paid_order_frame s t mid in
    (
      (m.payment, ground (arith, a, f.frame), m.is_paid_row, m.is_marked),
      (
        f.order,
        f.minutes,
        f.has_order,
        ground (arith, f.was_pending),
        λ id. ground (arith, a, f.row id),
        ground (arith, a, f.created),
      ),
    )

settle_payment-Flagged :
    (s : Snapshot) (u : PaidUpdate) (c : PaidCreate) (e : Error) (note : Text) (o : Order)
    (db db' : Db) (m : Marked s u c db)
    → rollback_note e ≡ some note
    → lookup s.id db.orders ≡ some o
    → (db'.payments ≡ (with_payment s.id m.payment db).payments)
    → (db' ≡ record db { orders = db'.orders; payments = db'.payments; events = db'.events })
    → ((id : ℕ)
        → lookup id db'.orders ≡ (if s.id == id then some (noted note o) else lookup id db.orders))
    → Paid s u c db db' × Flagged s db db'
settle_payment-Flagged s u c e note o db db' m r l ps frame row = (
  (m.payment, ps, m.is_paid_row, m.is_marked),
  (
    o,
    noted note o,
    e,
    note,
    r,
    l,
    noted-Told note o,
    row,
    ground (arith, frame),
    ground (arith, frame),
    ground (arith, frame),
  ),
)

rescue-Flagged :
    (s : Snapshot) (u : PaidUpdate) (c : PaidCreate) (e : Error) (note : Text) (db db' : Db)
    (m : Marked s u c db)
    → rollback_note e ≡ some note
    → rescue s u c e (some note) db ≡ (ok tt, db')
    → Paid s u c db db' × Flagged s db db'
unfolding add_note_for_staff
rescue-Flagged s u c e note db db' m r h =
    let paid = with_payment s.id m.payment db in
    let flag = take_and_flag_lem s u c note db m in
    elim (Option-cases (lookup s.id db.orders)) [
      | inl l ↦ ground (arith, flag, l)
      | inr (o, l) ↦
          let n = add_note_for_staff_lem s.id s.id note o paid l in
          let row = λ (id : ℕ). add_note_for_staff_lem s.id id note o paid l in
          settle_payment-Flagged s u c e note o db db' m r l (ground (arith, flag, n, l))
            (ground (arith, flag, n, l)) (λ id. ground (arith, flag, n, row id, l))
    ]

pub record_online_payment_outcome :
    (now : ℕ) (s : Snapshot) (reference : Option Text) (u : PaidUpdate) (c : PaidCreate)
    (db db' : Db)
    → SameRow s db
    → is_settled s.id db ≡ false
    → record_online_payment now s s.order.total_amount reference u c db ≡ (ok tt, db')
    → Paid s u c db db' × (Sent now s db db' ⊎ Flagged s db db')
unfolding record_online_payment fulfil_if
record_online_payment_outcome now s reference u c db db' r h e =
    let m = Marked-of s u c db r h in
    let paid = with_payment s.id m.payment db in
    let take = take_and_fulfil_lem now s u c db m in
    elim (Result-cases (fulfil now s.id paid).0) [
      | inl (t, k) ↦
          let mid = (fulfil now s.id paid).1 in
          let (p, d) =
            settle_payment-Sent now s u c t db mid db' m (ground (arith, k))
              (ground (arith, k, take, ==_refl s.order.total_amount)) in
          (p, inl d)
      | inr (x, k) ↦ elim (Option-cases (rollback_note x)) [
        | inl n ↦ ground (arith, k, n, take, ==_refl s.order.total_amount)
        | inr (note, n) ↦
            let (p, d) =
              rescue-Flagged s u c x note db db' m n
                (ground (arith, k, n, take, ==_refl s.order.total_amount)) in
            (p, inr d)
      ]
    ]

-- A call that throws leaves everything as it was, so that the gateway can deliver again.
pub record_online_payment_rollback :
    (now : ℕ) (s : Snapshot) (paid : ℕ) (reference : Option Text) (u : PaidUpdate) (c : PaidCreate)
    (db db' : Db) (e : Error)
    → record_online_payment now s paid reference u c db ≡ (err e, db')
    → db' ≡ db
unfolding record_online_payment flag_for_staff
record_online_payment_rollback now s paid reference u c db db' e r =
    let note = wrong_amount_note paid s.order reference in
    elim (Bool-cases (paid == s.order.total_amount)) [
      | inr w ↦ elim (Result-cases (add_note_for_staff s.id note db).0) [
        | inl (true, n) ↦ ground (arith, w, n)
        | inl (false, n) ↦ ground (arith, w, n)
        | inr (x, n) ↦ ground (arith, w, n)
      ]
      | inl w ↦ elim (Result-cases (take_and_fulfil now s u c db).0) [
        | inl (none, k) ↦ ground (arith, w, k)
        | inl (some t, k) ↦
            ground (arith, w, k, announce_paid_order_frame s t (take_and_fulfil now s u c db).1)
        | inr (x, k) ↦ elim (Option-cases (rollback_note x)) [
          | inl n ↦ ground (arith, w, k, n)
          | inr (note, n) ↦ elim (Result-cases (take_and_flag s u c note db).0) [
            | inl (false, f) ↦ ground (arith, w, k, n, f)
            | inl (true, f) ↦ ground (arith, w, k, n, f)
            | inr (y, f) ↦ ground (arith, w, k, n, f)
          ]
        ]
      ]
    ]

-- An amount that is not the total only flags the order.
pub record_online_payment_flag :
    (now : ℕ) (s : Snapshot) (paid : ℕ) (reference : Option Text) (u : PaidUpdate) (c : PaidCreate)
    (db : Db)
    → (paid == s.order.total_amount) ≡ false
    → record_online_payment now s paid reference u c db
      ≡ flag_for_staff s.id (wrong_amount_note paid s.order reference) db
unfolding record_online_payment
record_online_payment_flag now s paid reference u c db w = rw w refl
