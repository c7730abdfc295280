-- ===== src/System/PaidFor.antt =====
-- Every order that is in the kitchen or handed over has been paid for.
use zak_s_sizzling.Kitchen.Status.{sold, sold_row}
use zak_s_sizzling.Prelude.{
  Option-cases, false, ℕ, ◌≡◌, refl, Bool, not, is_some, true, Option, arith, ◌==◌, Bool-cases, inl,
  inr, ==_iff, ◌⊎◌, [],
}
use zak_s_sizzling.Store.{Db, Result, Result-cases, KitchenStatus}
use zak_s_sizzling.Prelude.Text.{Text}
use zak_s_sizzling.Prelude.Dict.{lookup, lookup-insert}
use zak_s_sizzling.Orders.Create.{Draw, OrderInput, create_order}
use zak_s_sizzling.Orders.Create.Placed.{
  create_order-Attempt, create_order_rollback, place_rows, place_pending,
}
use zak_s_sizzling.Orders.Cancel.{cancel_order, cancel_order-cancelled, cancel_order_rollback}
use zak_s_sizzling.Payments.Confirm.{
  Snapshot, PaidUpdate, PaidCreate, paid_row, confirm_counter_snapshot,
}
use zak_s_sizzling.Payments.Confirm.Paid.{
  confirm_counter_snapshot-paid, confirm_counter_snapshot_rollback,
}
use zak_s_sizzling.Kitchen.{update_task_status}
use zak_s_sizzling.Kitchen.Update.{update_task_status_sold}
use zak_s_sizzling.Kitchen.HandOver.{hand_over_order, hand_over_order_sold}
use zak_s_sizzling.Kitchen.Cancel.{cancel_kitchen_order}
use zak_s_sizzling.Kitchen.Cancel.Refund.{cancel_kitchen_order_rows, cancel_kitchen_order_rollback}
use zak_s_sizzling.Orders.Attention.{Resolution, mark_attention_sorted_out}
use zak_s_sizzling.Orders.Attention.Settled.{
  mark_attention_sorted_out_lem, mark_attention_sorted_out_rollback,
}
use zak_s_sizzling.Payments.Confirm.Once.{is_settled}
use zak_s_sizzling.Payments.Online.{record_online_payment, flag_for_staff, wrong_amount_note}
use zak_s_sizzling.Payments.Online.Wrong.{flag_for_staff_sold}
use zak_s_sizzling.Payments.Online.Taken.{
  Paid, Sent, Flagged, record_online_payment_flag, record_online_payment_outcome,
  record_online_payment_settled, record_online_payment_rollback, record_online_payment_stale,
}
use zak_s_sizzling.Payments.QrPh.{
  QrPhCode, record_qrph, refuse_qrph, switch_to_counter_payment, switch_payment,
}
use zak_s_sizzling.Payments.QrPh.Pending.{
  record_qrph_orders, record_qrph_paid, refuse_qrph_paid, switch_to_counter_payment_paid,
  switch_payment_paid,
}
use zak_s_sizzling.System.{
  Step, Reachable, step_create, step_counter, step_online, step_flag, step_qrph, step_qrph_refused,
  step_switch, step_task, step_hand_over, step_cancel_kitchen, step_cancel, step_sorted_out, here,
  next, step_switch_late,
}

abbrev pub PaidForAt : ℕ → Db → Type 0
PaidForAt id db = sold_row (lookup id db.orders) ≡ true → paid_row (lookup id db.payments) ≡ true

create_order-PaidFor :
    (d : Draw) (input : OrderInput) (db : Db) (id : ℕ)
    → PaidForAt id db
    → PaidForAt id (create_order d input db).1
create_order-PaidFor d input db id h sold =
    let db' = (create_order d input db).1 in
    elim (Result-cases (create_order d input db).0) [
      | inr (e, r) ↦ ground (arith, r, create_order_rollback d input db db' e)
      | inl (dto, r) ↦
          let (ls, n, minutes, a, m, c, f, tables) =
            create_order-Attempt d input db db' dto (ground (arith, r)) in
          elim (Bool-cases (d.order_id == id)) [
            | inl k ↦ ground (
              arith,
              k,
              tables,
              place_pending d input ls (d.number n) minutes db,
              ==_iff d.order_id id,
            )
            | inr k ↦ ground (arith, k, tables, place_rows d input ls (d.number n) minutes db id k)
          ]
    ]

cancel_order-PaidFor :
    (now k : ℕ) (db : Db) (id : ℕ) → PaidForAt id db → PaidForAt id (cancel_order now k db).1
cancel_order-PaidFor now k db id h sold =
    let db' = (cancel_order now k db).1 in
    elim (Result-cases (cancel_order now k db).0) [
      | inr (e, r) ↦ ground (arith, r, cancel_order_rollback now k db db' e)
      | inl (dto, r) ↦ ground (arith, r, cancel_order-cancelled now k id db db' dto)
    ]

confirm_counter-PaidFor :
    (now : ℕ) (s : Snapshot) (db : Db) (id : ℕ)
    → PaidForAt id db
    → PaidForAt id (confirm_counter_snapshot now s db).1
confirm_counter-PaidFor now s db id h sold =
    let db' = (confirm_counter_snapshot now s db).1 in
    elim (Result-cases (confirm_counter_snapshot now s db).0) [
      | inr (e, r) ↦ ground (arith, r, confirm_counter_snapshot_rollback now s db db' e)
      | inl (dto, r) ↦ ground (arith, r, confirm_counter_snapshot-paid now s db db' dto id)
    ]

cancel_kitchen-PaidFor :
    (now k : ℕ) (reason : Text) (user_id : ℕ) (db : Db) (id : ℕ)
    → PaidForAt id db
    → PaidForAt id (cancel_kitchen_order now k reason user_id db).1
cancel_kitchen-PaidFor now k reason user_id db id h sold =
    let db' = (cancel_kitchen_order now k reason user_id db).1 in
    elim (Result-cases (cancel_kitchen_order now k reason user_id db).0) [
      | inr (e, r) ↦ ground (arith, r, cancel_kitchen_order_rollback now k reason user_id db db' e)
      | inl (v, r) ↦ ground (arith, r, cancel_kitchen_order_rows now k reason user_id db db' id)
    ]

update_task-PaidFor :
    (now k : ℕ) (status : KitchenStatus) (db : Db) (id : ℕ)
    → PaidForAt id db
    → PaidForAt id (update_task_status now k status db).1
update_task-PaidFor now k status db id h sold =
    ground (arith, update_task_status_sold now k status id db)

hand_over-PaidFor :
    (now k : ℕ) (db : Db) (id : ℕ) → PaidForAt id db → PaidForAt id (hand_over_order now k db).1
hand_over-PaidFor now k db id h sold = ground (arith, hand_over_order_sold now k id db)

flag-PaidFor :
    (k : ℕ) (note : Text) (db : Db) (id : ℕ)
    → PaidForAt id db
    → PaidForAt id (flag_for_staff k note db).1
flag-PaidFor k note db id h sold = ground (arith, flag_for_staff_sold k id note db)

switch-PaidFor :
    (k : ℕ) (db : Db) (id : ℕ) → PaidForAt id db → PaidForAt id (switch_to_counter_payment k db).1
switch-PaidFor k db id h sold = ground (arith, switch_to_counter_payment_paid k id db)

switch_late-PaidFor :
    (k : ℕ) (db : Db) (id : ℕ) → PaidForAt id db → PaidForAt id (switch_payment k db)
switch_late-PaidFor k db id h sold = ground (arith, switch_payment_paid k id db)

qrph-PaidFor :
    (answer : Result QrPhCode) (s : Snapshot) (db : Db) (id : ℕ)
    → is_settled s.id db ≡ false
    → PaidForAt id db
    → PaidForAt id (record_qrph answer s db).1
qrph-PaidFor answer s db id n h sold = elim (Bool-cases (paid_row (lookup id db.payments))) [
  | inl p ↦ ground (arith, p, record_qrph_paid answer s id db n p)
  | inr p ↦ ground (arith, p, record_qrph_orders answer s db)
]

qrph_refused-PaidFor :
    (s : Snapshot) (db : Db) (id : ℕ) → PaidForAt id db → PaidForAt id (refuse_qrph s db).1
qrph_refused-PaidFor s db id h sold = ground (arith, refuse_qrph_paid s id db)

taken-PaidFor :
    (now : ℕ) (s : Snapshot) (reference : Option Text) (u : PaidUpdate) (c : PaidCreate)
    (db db' : Db) (id : ℕ)
    → Paid s u c db db' × (Sent now s db db' ⊎ Flagged s db db')
    → PaidForAt id db
    → PaidForAt id db'
taken-PaidFor now s reference u c db db' id ((p, ps, paid, m), inl (o, minutes, l, k, row, created))
      h sold =
    ground (arith, ps, paid, row id, lookup-insert s.id id p db.payments)
taken-PaidFor now s reference u c db db' id
      ((p, ps, paid, m), inr (o, o', e, note, r, l, told, row, i1, i2, i3)) h sold =
    ground (arith, ps, paid, row id, lookup-insert s.id id p db.payments)

online_of_total-PaidFor :
    (now : ℕ) (s : Snapshot) (reference : Option Text) (u : PaidUpdate) (c : PaidCreate) (db : Db)
    (id : ℕ)
    → PaidForAt id db
    → PaidForAt id (record_online_payment now s s.order.total_amount reference u c db).1
online_of_total-PaidFor now s reference u c db id h sold =
    let total = s.order.total_amount in
    let db' = (record_online_payment now s total reference u c db).1 in
    elim (same_or_not (is_some s.payment) (is_some (lookup s.id db.payments))) [
      | inr k ↦ ground (arith, record_online_payment_stale now s reference u c db k)
      | inl same ↦ elim (Bool-cases (is_settled s.id db)) [
        | inl k ↦ ground (arith, record_online_payment_settled now s reference u c db k)
        | inr k ↦ elim (Result-cases (record_online_payment now s total reference u c db).0) [
          | inr (x, r) ↦
              ground (arith, r, record_online_payment_rollback now s total reference u c db db' x)
          | inl (v, r) ↦
              taken-PaidFor now s reference u c db db' id
                (record_online_payment_outcome now s reference u c db db' same k
                  (ground (arith, r)))
                h sold
        ]
      ]
    ]
  where
    same_or_not : (a b : Bool) → (a ≡ b) ⊎ (a ≡ not b)
    same_or_not true true = inl refl
    same_or_not true false = inr refl
    same_or_not false true = inr refl
    same_or_not false false = inl refl

online-PaidFor :
    (now : ℕ) (s : Snapshot) (paid : ℕ) (reference : Option Text) (u : PaidUpdate) (c : PaidCreate)
    (db : Db) (id : ℕ)
    → PaidForAt id db
    → PaidForAt id (record_online_payment now s paid reference u c db).1
online-PaidFor now s paid reference u c db id h sold =
    elim (Bool-cases (paid == s.order.total_amount)) [
      | inr w ↦ ground (
        arith,
        record_online_payment_flag now s paid reference u c db w,
        flag_for_staff_sold s.id id (wrong_amount_note paid s.order reference) db,
      )
      | inl w ↦
          let e : paid ≡ s.order.total_amount =
            ground (arith, ==_iff paid s.order.total_amount, w) in
          ground (arith, e, online_of_total-PaidFor now s reference u c db id h)
    ]

sorted_out-PaidFor :
    (now k : ℕ) (seen : Option Text) (resolution : Option Resolution) (db : Db) (id : ℕ)
    → PaidForAt id db
    → PaidForAt id (mark_attention_sorted_out now k seen resolution db).1
sorted_out-PaidFor now k seen resolution db id h sold =
    let db' = (mark_attention_sorted_out now k seen resolution db).1 in
    elim (Result-cases (mark_attention_sorted_out now k seen resolution db).0) [
      | inr (e, r) ↦
          ground (arith, r, mark_attention_sorted_out_rollback now k seen resolution db db' e)
      | inl (dto, r) ↦
          let (o, o', l, issue, n, settle, row, off, same, pay, frame) =
            mark_attention_sorted_out_lem now k seen resolution db db' dto id (ground (arith, r)) in
          elim (Option-cases (lookup id db.payments)) [
            | inl e ↦ ground (arith, row, pay, e, l, ==_iff k id, same)
            | inr (p, e) ↦ ground (arith, row, pay, e, l, ==_iff k id, same)
          ]
    ]

Step-PaidForAt : (db db' : Db) (id : ℕ) → Step db db' → PaidForAt id db → PaidForAt id db'
Step-PaidForAt db db' id (step_create d input db1 fresh) h = create_order-PaidFor d input db1 id h
Step-PaidForAt db db' id (step_counter now s db1) h = confirm_counter-PaidFor now s db1 id h
Step-PaidForAt db db' id (step_online now s paid r u c db1) h =
    online-PaidFor now s paid r u c db1 id h
Step-PaidForAt db db' id (step_flag k note db1) h = flag-PaidFor k note db1 id h
Step-PaidForAt db db' id (step_qrph answer s db1 n) h = qrph-PaidFor answer s db1 id n h
Step-PaidForAt db db' id (step_qrph_refused s db1) h = qrph_refused-PaidFor s db1 id h
Step-PaidForAt db db' id (step_switch k db1) h = switch-PaidFor k db1 id h
Step-PaidForAt db db' id (step_switch_late k db1) h = switch_late-PaidFor k db1 id h
Step-PaidForAt db db' id (step_task now k status db1) h = update_task-PaidFor now k status db1 id h
Step-PaidForAt db db' id (step_hand_over now k db1) h = hand_over-PaidFor now k db1 id h
Step-PaidForAt db db' id (step_cancel_kitchen now k reason user_id db1) h =
    cancel_kitchen-PaidFor now k reason user_id db1 id h
Step-PaidForAt db db' id (step_cancel now k db1) h = cancel_order-PaidFor now k db1 id h
Step-PaidForAt db db' id (step_sorted_out now k seen resolution db1) h =
    sorted_out-PaidFor now k seen resolution db1 id h

Reachable-PaidForAt :
    (start db : Db) (id : ℕ) → Reachable start db → PaidForAt id start → PaidForAt id db
Reachable-PaidForAt start db id here h = h
Reachable-PaidForAt start db id (next {db = mid} r s) h =
    Step-PaidForAt mid db id s (Reachable-PaidForAt start mid id r h)

-- From a state without orders, after any sequence of calls, where a payment at the counter or online
-- and a switch to the counter may rest on a stale read of the order, and a QR code is recorded any
-- time after its order was read, but not once the order's payment is settled: an order that is
-- confirmed, preparing, ready or handed over has a payment that is paid.
pub Reachable-PaidFor :
    (start db : Db) (id : ℕ)
    → start.orders ≡ []
    → Reachable start db
    → sold_row (lookup id db.orders) ≡ true
    → paid_row (lookup id db.payments) ≡ true
Reachable-PaidFor start db id none_yet r = Reachable-PaidForAt start db id r (λ sold. ground arith)
