-- ===== src/Payments/Confirm/Mark.antt =====
-- The row that marking a payment paid leaves.
use zak_s_sizzling.Prelude.{
  ℕ, ◌≡◌, refl, Bool, true, false, Option, none, some, arith, is_some, Option-cases, inl, inr,
}
use zak_s_sizzling.Prelude.Dict.{lookup, insert}
use zak_s_sizzling.Store.{Db, Payment, PaymentStatus, ok}
use zak_s_sizzling.Payments.Confirm.{
  Snapshot, PaidUpdate, PaidCreate, is_open, paid_update, paid_create,
  mark_payment_paid_if_not_already, PaymentMethod, Text, not,
}
use zak_s_sizzling.Payments.Confirm.Once.{is_settled}

-- The row that a confirmation writes, from the row that was there.
abbrev pub IsMarked : Snapshot → PaidUpdate → PaidCreate → Option Payment → Payment → Type 0
IsMarked s u c none p = p ≡ paid_create c s.order
IsMarked s u c (some q) p = (is_open q.status ≡ true) × (p ≡ paid_update u q)

abbrev pub with_payment : ℕ → Payment → Db → Db
with_payment order_id p db = record db { payments = insert order_id p db.payments }

pub mark_payment_paid-IsMarked :
    (s : Snapshot) (u : PaidUpdate) (c : PaidCreate) (db db' : Db)
    → mark_payment_paid_if_not_already s u c db ≡ (ok Bool.true, db')
    → (p : Payment) × IsMarked s u c (lookup s.id db.payments) p × (db' ≡ with_payment s.id p db)
unfolding mark_payment_paid_if_not_already
mark_payment_paid-IsMarked s u c db db' r = elim (Option-cases (lookup s.id db.payments)) [
  | inl e ↦ (paid_create c s.order, rw e refl, ground (arith, e))
  | inr (q, e) ↦ (paid_update u q, rw e (ground (arith, e), refl), ground (arith, e))
]

-- The snapshot knows whether the order has a payment row; rows are never deleted.
abbrev pub SameRow : Snapshot → Db → Type 0
SameRow s db = is_some s.payment ≡ is_some (lookup s.id db.payments)

-- A read that is wrong on whether there is a row marks nothing.
pub mark_payment_paid_stale :
    (s : Snapshot) (u : PaidUpdate) (c : PaidCreate) (db : Db)
    → is_some s.payment ≡ not (is_some (lookup s.id db.payments))
    → mark_payment_paid_if_not_already s u c db ≡ (ok Bool.false, db)
unfolding mark_payment_paid_if_not_already
mark_payment_paid_stale s u c db r = elim (Option-cases (lookup s.id db.payments)) [
  | inl e ↦ ground (arith, e)
  | inr (p, e) ↦ ground (arith, e)
]

mark_payment_paid_open :
    (s : Snapshot) (u : PaidUpdate) (c : PaidCreate) (db : Db)
    → SameRow s db
    → is_settled s.id db ≡ false
    → (mark_payment_paid_if_not_already s u c db).0 ≡ ok Bool.true
unfolding mark_payment_paid_if_not_already
mark_payment_paid_open s u c db r h = elim (Option-cases (lookup s.id db.payments)) [
  | inl e ↦ ground (arith, e)
  | inr (p, e) ↦ ground (arith, e)
]

IsMarked_paid :
    (s : Snapshot) (u : PaidUpdate) (c : PaidCreate) (q : Option Payment) (p : Payment)
    → IsMarked s u c q p
    → p.status ≡ PaymentStatus.paid
unfolding paid_update paid_create
IsMarked_paid s u c none p m = ground (arith, m)
IsMarked_paid s u c (some q) p m = ground (arith, m)

-- The payment is marked, in both transactions.
pub record Marked (s : Snapshot) (u : PaidUpdate) (c : PaidCreate) (db : Db) : Type 0 where
  pub payment : Payment
  pub is_paid_row : payment.status ≡ PaymentStatus.paid
  pub is_marked : IsMarked s u c (lookup s.id db.payments) payment
  pub step :
      mark_payment_paid_if_not_already s u c db ≡ (ok Bool.true, with_payment s.id payment db)

pub Marked-of :
    (s : Snapshot) (u : PaidUpdate) (c : PaidCreate) (db : Db)
    → SameRow s db
    → is_settled s.id db ≡ false
    → Marked s u c db
Marked-of s u c db r h =
    let m = mark_payment_paid_open s u c db r h in
    let (p, k, e) =
      mark_payment_paid-IsMarked s u c db (mark_payment_paid_if_not_already s u c db).1
        (ground (arith, m)) in
    record {
      payment = p;
      is_paid_row = IsMarked_paid s u c (lookup s.id db.payments) p k;
      is_marked = k;
      step = ground (arith, m, e);
    }

-- A confirmation that names its method and its reference writes both.
pub IsMarked-fields :
    (s : Snapshot) (m : PaymentMethod) (r : Text) (now : ℕ) (c : PaidCreate) (q p : Payment)
    → IsMarked s (record { method = some m; reference = some r; paid_at = now }) c (some q) p
    → (p.status ≡ PaymentStatus.paid)
      × (p.method ≡ m)
      × (p.reference ≡ some r)
      × (p.paid_at ≡ some now)
      × (p.amount ≡ q.amount)
unfolding paid_update
IsMarked-fields s m r now c q p h = ground (arith, h)
