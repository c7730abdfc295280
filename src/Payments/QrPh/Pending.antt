-- ===== src/Payments/QrPh/Pending.antt =====
-- The kiosk's calls: when PayMongo is asked, what a settled payment is left at, and what a new code
-- does to the row.
use zak_s_sizzling.Prelude.{
  ℕ, ◌≡◌, refl, Bool, true, false, not, none, some, arith, Option-cases, ==_iff, inl, inr, ◌==◌,
  if◌then◌else◌, Bool-cases, ap,
}
use zak_s_sizzling.Prelude.Text.{Text}
use zak_s_sizzling.Prelude.Dict.{Dict, lookup, lookup-insert}
use zak_s_sizzling.Store.{
  Db, Order, Payment, PaymentStatus, PaymentMethod, Result, Result-cases, ok, err,
  lookup-update_where,
}
use zak_s_sizzling.Orders.Dto.{get_order_by_id}
use zak_s_sizzling.Payments.Confirm.{paid_row, Snapshot, load_payable_order, is_paid, is_cancelled}
use zak_s_sizzling.Payments.Confirm.Once.{load_payable_order-some, is_settled}
use zak_s_sizzling.Payments.QrPh.{
  upsert, refuse_qrph, save_counter, to_counter, to_qrph, pending_payment, QrPhCode, Intent, asked,
  ask_about, check_qrph_payment, record_qrph, save_qrph, switch_payment, switch_to_counter_payment,
  switched,
}

-- PayMongo is asked only about a pending QR Ph payment with a reference, of an order that is not
-- flagged, and only when it is configured.
pub asked-some :
    (configured : Bool) (s : Snapshot) (reference : Text)
    → asked configured s ≡ some reference
    → (configured ≡ true)
      × (s.order.stock_issue ≡ false)
      × ((p : Payment) × (s.payment ≡ some p)
          × (p.status ≡ PaymentStatus.pending)
          × (p.method ≡ PaymentMethod.qrph)
          × (p.reference ≡ some reference))
unfolding asked
asked-some configured s reference h = elim (Option-cases s.payment) [
  | inl e ↦ ground (arith, e)
  | inr (p, e) ↦ (
    ground (arith, e),
    ground (arith, e),
    (p, e, ground (arith, e), ground (arith, e), ground (arith, e)),
  )
]

-- The kiosk's check of an order whose payment is settled only answers with the order.
pub check_qrph_payment_settled :
    (now : ℕ) (configured : Bool) (answer : Result Intent) (order_id : ℕ) (o : Order) (db : Db)
    → lookup order_id db.orders ≡ some o
    → is_settled order_id db ≡ true
    → check_qrph_payment now configured answer order_id db ≡ (ok (get_order_by_id order_id db), db)
unfolding check_qrph_payment ask_about asked
check_qrph_payment_settled now configured answer order_id o db l h =
    elim (Option-cases (lookup order_id db.payments)) [
      | inl e ↦ ground (arith, l, e)
      | inr (p, e) ↦ ground (arith, l, e)
    ]

-- Recording a new code makes the row pending whatever it was.
pub record_qrph-pending :
    (code : QrPhCode) (s : Snapshot) (db : Db)
    → (p : Payment) × (lookup s.id (record_qrph (ok code) s db).1.payments ≡ some p)
      × (p.status ≡ PaymentStatus.pending)
      × (p.method ≡ PaymentMethod.qrph)
      × (p.reference ≡ some code.payment_intent_id)
unfolding record_qrph save_qrph
record_qrph-pending code s db = elim (Option-cases (lookup s.id db.payments)) [
  | inl e ↦ (
    pending_payment PaymentMethod.qrph (some code.payment_intent_id) s.order,
    grind (arith, e, lookup-insert),
    refl,
    refl,
    refl,
  )
  | inr (p, e) ↦
      (to_qrph code.payment_intent_id s.order p, grind (arith, e, lookup-insert), refl, refl, refl)
]

-- Switching to the counter never touches a paid row, and is refused then with everything as it
-- was; an unpaid row of an order that is not cancelled goes to the counter, with no reference and
-- the status that it had.
pub switch_to_counter_payment_lem :
    (order_id : ℕ) (db : Db) (o : Order) (p : Payment)
    → lookup order_id db.orders ≡ some o
    → lookup order_id db.payments ≡ some p
    → is_cancelled o.status ≡ false
    → lookup order_id (switch_to_counter_payment order_id db).1.payments
      ≡ some (if is_paid p.status then p else switched p)
unfolding switch_to_counter_payment switch_payment
switch_to_counter_payment_lem order_id db o p l e c = grind (
  arith,
  l,
  e,
  c,
  load_payable_order-some order_id o db l,
  lookup-update_where order_id order_id (λ (q : Payment). not (is_paid q.status)) switched
      db.payments,
)

-- The write of a switch.
pub switch_payment_paid :
    (order_id id : ℕ) (db : Db)
    → ((switch_payment order_id db).orders ≡ db.orders)
      × (paid_row (lookup id (switch_payment order_id db).payments)
          ≡ paid_row (lookup id db.payments))
unfolding switch_payment
switch_payment_paid order_id id db = (refl, grind (arith, lookup-update_where, ==_iff))

-- Whatever it answers, switching touches no order and no row's being paid.
pub switch_to_counter_payment_paid :
    (order_id id : ℕ) (db : Db)
    → ((switch_to_counter_payment order_id db).1.orders ≡ db.orders)
      × (paid_row (lookup id (switch_to_counter_payment order_id db).1.payments)
          ≡ paid_row (lookup id db.payments))
unfolding switch_to_counter_payment switch_payment
switch_to_counter_payment_paid order_id id db =
    elim (Result-cases (load_payable_order order_id db)) [
      | inr (x, e) ↦ ground (arith, e)
      | inl (s, e) ↦ (
        ground (arith, e),
        elim (Option-cases (lookup id db.payments)) [
          | inl l ↦ ground (
            arith,
            e,
            l,
            lookup-update_where s.id id (λ (q : Payment). not (is_paid q.status)) switched
                db.payments,
          )
          | inr (p, l) ↦ ground (
            arith,
            e,
            l,
            lookup-update_where s.id id (λ (q : Payment). not (is_paid q.status)) switched
                db.payments,
          )
        ],
      )
    ]

upsert_other :
    (k id : ℕ) (f : Payment → Payment) (p : Payment) (ps : Dict Payment)
    → (k == id) ≡ false
    → lookup id (upsert k f p ps) ≡ lookup id ps
upsert_other k id f p ps n = grind (arith, lookup-insert)

-- Without a gateway no order changes and no row's being paid, whatever the earlier read had shown.
pub refuse_qrph_paid :
    (s : Snapshot) (id : ℕ) (db : Db)
    → ((refuse_qrph s db).1.orders ≡ db.orders)
      × (paid_row (lookup id (refuse_qrph s db).1.payments) ≡ paid_row (lookup id db.payments))
unfolding refuse_qrph save_counter
refuse_qrph_paid s id db = (
  refl,
  elim (Bool-cases (s.id == id)) [
    | inr n ↦ ap paid_row (
        upsert_other s.id id to_counter (pending_payment PaymentMethod.counter none s.order)
          db.payments n)
    | inl k ↦
        let same : s.id ≡ id = ground (arith, k, ==_iff s.id id) in
        elim (Option-cases (lookup s.id db.payments)) [
          | inl e ↦ grind (arith, same, e, lookup-insert)
          | inr (p, e) ↦ grind (arith, same, e, lookup-insert)
        ]
  ],
)

-- A code that is recorded for a payment that is not settled touches no order and no row that is
-- paid.
pub record_qrph_paid :
    (answer : Result QrPhCode) (s : Snapshot) (id : ℕ) (db : Db)
    → is_settled s.id db ≡ false
    → paid_row (lookup id db.payments) ≡ true
    → ((record_qrph answer s db).1.orders ≡ db.orders)
      × (lookup id (record_qrph answer s db).1.payments ≡ lookup id db.payments)
unfolding record_qrph save_qrph
record_qrph_paid (err e) s id db n p = (refl, refl)
record_qrph_paid (ok code) s id db n p =
    let other : (s.id == id) ≡ false = elim (Bool-cases (s.id == id)) [
      | inr k ↦ k
      | inl k ↦ ground (arith, k, ==_iff s.id id)
    ] in
    (
      refl,
      upsert_other s.id id (to_qrph code.payment_intent_id s.order)
          (pending_payment PaymentMethod.qrph (some code.payment_intent_id) s.order) db.payments
          other,
    )

pub record_qrph_orders :
    (answer : Result QrPhCode) (s : Snapshot) (db : Db)
    → (record_qrph answer s db).1.orders ≡ db.orders
unfolding record_qrph save_qrph
record_qrph_orders (ok code) s db = refl
record_qrph_orders (err e) s db = refl
