-- ===== src/Payments/Confirm/Once.antt =====
-- A payment is taken once: when its row is settled, no confirmation changes anything, whatever an
-- earlier read of the order had shown.
use zak_s_sizzling.Prelude.{
  ℕ, ◌≡◌, Bool, true, false, not, Option, none, some, arith, Option-cases, inl, inr, if◌then◌else◌,
}
use zak_s_sizzling.Prelude.Dict.{lookup}
use zak_s_sizzling.Store.{Db, Order, http_error, Payment, err, ok}
use zak_s_sizzling.Payments.Confirm.{
  load_payable_order, paid_row, is_cancelled, cancelled_message, confirm_counter_payment, Snapshot,
  PaidUpdate, PaidCreate, is_open, mark_payment_paid_if_not_already, already_paid_error,
  pay_and_fulfil, counter_update, counter_create, payment_refusal, confirm_counter_snapshot,
}

-- The row is paid or refunded.
abbrev pub settled_row : Option Payment → Bool
settled_row none = false
settled_row (some p) = not (is_open p.status)

abbrev pub is_settled : ℕ → Db → Bool
is_settled order_id db = settled_row (lookup order_id db.payments)

pub mark_payment_paid_settled :
    (s : Snapshot) (u : PaidUpdate) (c : PaidCreate) (db : Db)
    → is_settled s.id db ≡ true
    → mark_payment_paid_if_not_already s u c db ≡ (ok Bool.false, db)
unfolding mark_payment_paid_if_not_already
mark_payment_paid_settled s u c db h = elim (Option-cases (lookup s.id db.payments)) [
  | inl e ↦ ground (arith, e)
  | inr (p, e) ↦ ground (arith, e)
]

-- The counter answers 409 and changes nothing when the order's payment is settled, also when the
-- order was read while it was still unpaid: a double click deducts no stock twice.
pub confirm_counter_snapshot_settled :
    (now : ℕ) (s : Snapshot) (db : Db)
    → is_settled s.id db ≡ true
    → confirm_counter_snapshot now s db ≡ (err already_paid_error, db)
unfolding confirm_counter_snapshot pay_and_fulfil payment_refusal
confirm_counter_snapshot_settled now s db h =
    ground (arith, mark_payment_paid_settled s (counter_update now) (counter_create now) db h)

pub load_payable_order-some :
    (order_id : ℕ) (o : Order) (db : Db)
    → lookup order_id db.orders ≡ some o
    → load_payable_order order_id db ≡ (
        if paid_row (lookup order_id db.payments)
        then err already_paid_error
        else if is_cancelled o.status
        then err (http_error 409 (cancelled_message o))
        else ok (record { id = order_id; order = o; payment = lookup order_id db.payments }))
unfolding load_payable_order
load_payable_order-some order_id o db l = ground (arith, l)

-- The whole call for an order that is paid already: it is refused, and changes nothing.
pub confirm_counter_payment_paid :
    (now order_id : ℕ) (o : Order) (db : Db)
    → lookup order_id db.orders ≡ some o
    → paid_row (lookup order_id db.payments) ≡ true
    → confirm_counter_payment now order_id db ≡ (err already_paid_error, db)
unfolding confirm_counter_payment
confirm_counter_payment_paid now order_id o db l p =
    ground (arith, p, load_payable_order-some order_id o db l)

pub load_payable_order-ok :
    (order_id : ℕ) (s : Snapshot) (db : Db)
    → load_payable_order order_id db ≡ ok s
    → (s.id ≡ order_id) × (paid_row (lookup order_id db.payments) ≡ false)
unfolding load_payable_order
load_payable_order-ok order_id s db e = elim (Option-cases (lookup order_id db.orders)) [
  | inl l ↦ ground (arith, l)
  | inr (o, l) ↦ (ground (arith, l), ground (arith, l))
]
