-- ===== src/Payments/QrPh.antt =====
-- QR Ph payments at the kiosk: `createQrPhPayment`, `checkQrPhPayment` and
-- `switchToCounterPayment` of apps/api/src/modules/payments/service.ts. What PayMongo answers, or
-- throws, is an argument.
pub mod Pending
use zak_s_sizzling.Prelude.{
  ℕ, Bool, true, false, not, ◌&&◌, Option, none, some, List, [], ◌∷◌, ◌++◌, if◌then◌else◌, is_some,
}
use zak_s_sizzling.Prelude.Text.{Text}
use zak_s_sizzling.Prelude.Dict.{Dict, lookup, insert}
use zak_s_sizzling.Store.{
  Db, Order, Payment, PaymentMethod, PaymentStatus, orders_changed, Error, paymongo_not_configured,
  Result, ok, err, Proc, pure, throw, read, lift, or_throw, emit, write, continue, update_where,
  ◌>>=◌, ◌>>◌,
}
use zak_s_sizzling.Orders.Dto.{OrderDto, get_order_by_id}
use zak_s_sizzling.Kitchen.{order_not_found}
use zak_s_sizzling.Payments.Confirm.{Snapshot, PaidUpdate, PaidCreate, load_payable_order, is_paid}
use zak_s_sizzling.Payments.Online.{record_online_payment}

-- `upsert` on the order of a payment.
abbrev pub upsert : ℕ → (Payment → Payment) → Payment → Dict Payment → Dict Payment
upsert k f p ps = elim (lookup k ps) [ none ↦ insert k p ps | some q ↦ insert k (f q) ps ]

abbrev pub pending_payment : PaymentMethod → Option Text → Order → Payment
pending_payment m reference o = record {
  method = m;
  status = PaymentStatus.pending;
  amount = o.total_amount;
  reference = reference;
  paid_at = none;
  refunded_at = none;
}

abbrev pub to_counter : Payment → Payment
to_counter p = record p { method = PaymentMethod.counter }

pub save_counter : Snapshot → Db → Db
save_counter s db = record db {
  payments =
      upsert s.id to_counter (pending_payment PaymentMethod.counter none s.order) db.payments;
}

pub record QrPhCode : Type 0 where
  pub payment_intent_id : Text
  pub image_url : Text
  pub expires_at : ℕ
  pub test_url : Option Text

abbrev pub to_qrph : Text → Order → Payment → Payment
to_qrph reference o p = record p {
  method = PaymentMethod.qrph;
  status = PaymentStatus.pending;
  amount = o.total_amount;
  reference = some reference;
}

unfoldable pub save_qrph : Snapshot → QrPhCode → Db → Db
save_qrph s code db = record db {
  payments =
      upsert s.id (to_qrph code.payment_intent_id s.order)
        (pending_payment PaymentMethod.qrph (some code.payment_intent_id) s.order) db.payments;
}

-- The handler without a gateway.
unfoldable pub refuse_qrph : Snapshot → Proc QrPhCode
unfolding save_counter
refuse_qrph s = do write (save_counter s); emit orders_changed; throw paymongo_not_configured

-- The handler once PayMongo has answered.
unfoldable pub record_qrph : Result QrPhCode → Snapshot → Proc QrPhCode
unfolding save_qrph
record_qrph answer s = do
  code ← lift answer
  write (save_qrph s code)
  emit orders_changed
  pure code

-- `others` is what other calls write while PayMongo makes the code.
abbrev pub qrph_from : Bool → Result QrPhCode → (Db → Db) → Snapshot → Proc QrPhCode
qrph_from true answer others s = do write others; record_qrph answer s
qrph_from false answer others s = refuse_qrph s

unfoldable pub create_qrph_payment : Bool → Result QrPhCode → (Db → Db) → ℕ → Proc QrPhCode
unfolding refuse_qrph record_qrph
create_qrph_payment configured answer others order_id = do
  order ← (λ db. (load_payable_order order_id db, db))
  qrph_from configured answer others order

pub record Intent : Type 0 where
  pub succeeded : Bool
  pub amount_centavos : ℕ

abbrev is_pending : PaymentStatus → Bool
is_pending PaymentStatus.pending = true
is_pending _ = false

abbrev is_qrph : PaymentMethod → Bool
is_qrph PaymentMethod.qrph = true
is_qrph _ = false

-- A string that `if (s)` takes.
abbrev pub present : Option Text → Option Text
present none = none
present (some []) = none
present (some (c ∷ cs)) = some (c ∷ cs)

-- The reference to ask PayMongo about, if it is asked at all.
pub asked : Bool → Snapshot → Option Text
asked configured s = elim s.payment [
  | none ↦ none
  | some p ↦
      if is_pending p.status && (is_qrph p.method && (not s.order.stock_issue && configured))
      then present p.reference
      else none
]

abbrev pub qrph_update : ℕ → Option Text → PaidUpdate
qrph_update now reference = record { method = none; reference = reference; paid_at = now }

abbrev pub qrph_create : ℕ → PaidCreate
qrph_create now = record { method = PaymentMethod.qrph; paid_at = now }

abbrev pub record_if_succeeded : ℕ → Snapshot → Text → Intent → Proc (Unit {0})
record_if_succeeded now s reference i =
    if i.succeeded
    then record_online_payment now s i.amount_centavos (some reference) (qrph_update now none)
        (qrph_create now)
    else pure tt

abbrev pub ask : ℕ → Snapshot → Result Intent → Option Text → Proc (Unit {0})
ask now s answer none = pure tt
ask now s answer (some reference) = do
  intent ← lift answer
  record_if_succeeded now s reference intent

pub ask_about : ℕ → Bool → Result Intent → Snapshot → Proc (Unit {0})
unfolding asked
ask_about now configured answer s = ask now s answer (asked configured s)

pub check_qrph_payment : ℕ → Bool → Result Intent → ℕ → Proc (Option OrderDto)
unfolding ask_about
check_qrph_payment now configured answer order_id = do
  order ← (λ db. or_throw (lookup order_id db.orders) order_not_found db)
  payment ← read (λ db. lookup order_id db.payments)
  ask_about now configured answer (record { id = order_id; order = order; payment = payment })
  read (get_order_by_id order_id)

abbrev pub switched : Payment → Payment
switched p = record p { method = PaymentMethod.counter; reference = none }

unfoldable pub switch_payment : ℕ → Db → Db
switch_payment order_id db = record db {
  payments =
      (update_where order_id (λ (p : Payment). not (is_paid p.status)) switched db.payments).0;
}

pub switch_to_counter_payment : ℕ → Proc (Option OrderDto)
unfolding switch_payment
switch_to_counter_payment order_id = do
  order ← (λ db. (load_payable_order order_id db, db))
  write (switch_payment order.id)
  emit orders_changed
  read (get_order_by_id order.id)
