-- ===== src/Payments/Online/Wrong.antt =====
-- A note for staff, and a payment of a wrong amount: it is recorded for staff and confirms nothing.
use zak_s_sizzling.Prelude.{
  ℕ, ◌≡◌, Bool, false, Option, none, some, arith, ◌==◌, if◌then◌else◌, Option-cases, Bool-cases,
  ==_iff, inl, inr,
}
use zak_s_sizzling.Prelude.Text.{Text}
use zak_s_sizzling.Prelude.Dict.{lookup, lookup-insert}
use zak_s_sizzling.Store.{Db, Order, record_not_found, ok, err}
use zak_s_sizzling.Kitchen.Status.{sold_row}
use zak_s_sizzling.Payments.Confirm.{Snapshot, PaidUpdate, PaidCreate}
use zak_s_sizzling.Payments.Online.{
  holds_note, with_note, add_note_for_staff, flag_for_staff, wrong_amount_note,
  record_online_payment,
}

-- An order's row after a note for staff: unchanged if it says so already.
abbrev pub noted : Text → Order → Order
noted note o = if holds_note o.stock_issue_note note then o else with_note note o

pub add_note_for_staff_lem :
    (order_id id : ℕ) (note : Text) (o : Order) (db : Db)
    → lookup order_id db.orders ≡ some o
    → (add_note_for_staff order_id note db ≡ (
      ok (if holds_note o.stock_issue_note note then Bool.false else Bool.true),
      record db { orders = (add_note_for_staff order_id note db).1.orders },
    ))
      × (lookup id (add_note_for_staff order_id note db).1.orders
          ≡ (if order_id == id then some (noted note o) else lookup id db.orders))
unfolding add_note_for_staff
add_note_for_staff_lem order_id id note o db l =
    elim (Bool-cases (holds_note o.stock_issue_note note)) [
      | inl h ↦ (ground (arith, l, h), grind (arith, l, h, lookup-insert))
      | inr h ↦ (ground (arith, l, h), grind (arith, l, h, lookup-insert))
    ]

add_note_for_staff-none :
    (order_id : ℕ) (note : Text) (db : Db)
    → lookup order_id db.orders ≡ none
    → add_note_for_staff order_id note db ≡ (err record_not_found, db)
unfolding add_note_for_staff
add_note_for_staff-none order_id note db e = ground (arith, e)

pub lookup-flag_for_staff :
    (order_id id : ℕ) (note : Text) (o : Order) (db : Db)
    → lookup order_id db.orders ≡ some o
    → (flag_for_staff order_id note db ≡ (
      ok tt,
      record db {
        orders = (flag_for_staff order_id note db).1.orders;
        events = (flag_for_staff order_id note db).1.events;
      },
    ))
      × (lookup id (flag_for_staff order_id note db).1.orders
          ≡ (if order_id == id then some (noted note o) else lookup id db.orders))
unfolding flag_for_staff
lookup-flag_for_staff order_id id note o db l =
    let a = add_note_for_staff_lem order_id id note o db l in
    elim (Bool-cases (holds_note o.stock_issue_note note)) [
      | inl h ↦ ground (arith, h, a)
      | inr h ↦ ground (arith, h, a)
    ]

-- Paying another amount than the total: the call returns, and all that changes but the events is
-- the order's flag and its note. The payment, the order's status, the stock and the kitchen are as
-- they were.
pub record_online_payment-wrong :
    (now : ℕ) (s : Snapshot) (paid : ℕ) (reference : Option Text) (u : PaidUpdate) (c : PaidCreate)
    (db db' : Db) (o : Order) (id : ℕ)
    → lookup s.id db.orders ≡ some o
    → (paid == s.order.total_amount) ≡ false
    → (record_online_payment now s paid reference u c db).1 ≡ db'
    → ((record_online_payment now s paid reference u c db).0 ≡ ok tt)
      × (db' ≡ record db { orders = db'.orders; events = db'.events })
      × (lookup id db'.orders ≡ (
          if s.id == id
          then some (noted (wrong_amount_note paid s.order reference) o)
          else lookup id db.orders))
unfolding record_online_payment
record_online_payment-wrong now s paid reference u c db db' o id l w e =
    let f = lookup-flag_for_staff s.id id (wrong_amount_note paid s.order reference) o db l in
    ground (arith, f)

-- Whatever it answers, a note for staff touches no payment and no order's status.
pub flag_for_staff_sold :
    (order_id id : ℕ) (note : Text) (db : Db)
    → ((flag_for_staff order_id note db).1.payments ≡ db.payments)
      × (sold_row (lookup id (flag_for_staff order_id note db).1.orders)
          ≡ sold_row (lookup id db.orders))
unfolding flag_for_staff
flag_for_staff_sold order_id id note db = elim (Option-cases (lookup order_id db.orders)) [
  | inl e ↦ ground (arith, e, add_note_for_staff-none order_id note db e)
  | inr (o, e) ↦
      ground (arith, e, lookup-flag_for_staff order_id id note o db e, ==_iff order_id id)
]
