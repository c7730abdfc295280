-- ===== src/Payments/Webhook.antt =====
-- PayMongo's webhook: `handleWebhook` of apps/api/src/modules/payments/service.ts. Whether the
-- signature is good, the parsed event and the gateway's answer are arguments. An order's id and a
-- Payment Intent's code are never empty texts.
pub mod Repeat
use zak_s_sizzling.Prelude.{
  ℕ, ◌==◌, Bool, true, false, not, ◌&&◌, ◌||◌, Option, none, some, List, [], ◌∷◌, ◌++◌,
  if◌then◌else◌, any,
}
use zak_s_sizzling.Prelude.Text.{Text, text, text_eq}
use zak_s_sizzling.Prelude.Dict.{Dict, lookup}
use zak_s_sizzling.Store.{
  Db, Order, Payment, PaymentMethod, PaymentStatus, Error, http_error, Result, ok, err, Proc, pure,
  throw, read, lift, continue, ◌>>=◌, ◌>>◌,
}
use zak_s_sizzling.Payments.Confirm.{Snapshot, PaidUpdate, PaidCreate, is_open}
use zak_s_sizzling.Payments.Online.{flag_for_staff, paymongo_code, pesos, record_online_payment}
use zak_s_sizzling.Payments.QrPh.{Intent}

pub record WebhookEvent : Type 0 where
  pub type : Text
  pub order_id : Option ℕ
  pub payment_intent_id : Option Text
  pub amount_centavos : Option ℕ

abbrev pub invalid_signature : Error
invalid_signature = http_error 401 (text "Invalid webhook signature")

abbrev pub payment_paid : Text
payment_paid = text "payment.paid"

unfoldable pub is_paid_event : Text → Bool
is_paid_event t = text_eq t payment_paid || text_eq t (text "checkout_session.payment.paid")

abbrev pub has_reference : Text → Payment → Bool
has_reference r p = elim p.reference [ none ↦ Bool.false | some q ↦ text_eq q r ]

pub find_by_reference : Text → Dict Payment → Option ℕ
find_by_reference r [] = none
find_by_reference r ((id, p) ∷ ps) = if has_reference r p then some id else find_by_reference r ps

-- The order that the event names, or the one whose payment has its code.
unfoldable pub event_order_id : WebhookEvent → Db → Option ℕ
unfolding find_by_reference
event_order_id e db = elim e.order_id [
  | some id ↦ some id
  | none ↦ elim e.payment_intent_id [ none ↦ none | some r ↦ find_by_reference r db.payments ]
]

abbrev pub snapshot_of : Db → ℕ → Option Snapshot
snapshot_of db id = elim (lookup id db.orders) [
  | none ↦ none
  | some o ↦ some (record { id = id; order = o; payment = lookup id db.payments })
]

unfoldable pub find_order : WebhookEvent → Db → Option Snapshot
unfolding event_order_id
find_order e db = elim (event_order_id e db) [ none ↦ none | some id ↦ snapshot_of db id ]

abbrev is_qrph : PaymentMethod → Bool
is_qrph PaymentMethod.qrph = true
is_qrph _ = false

-- A repeat of the event that paid the order.
pub same_code : Payment → Text → Bool
same_code p r = is_qrph p.method && has_reference r p

pub second_payment_note : Option ℕ → Text → Text
second_payment_note none r =
    text "A second payment"
    ++ (text " arrived online after this order was already paid"
        ++ (paymongo_code (some r) ++ text ". Refund the customer."))
second_payment_note (some n) r =
    (text "A second payment of " ++ pesos n)
    ++ (text " arrived online after this order was already paid"
        ++ (paymongo_code (some r) ++ text ". Refund the customer."))

pub no_amount_note : Option Text → Text
no_amount_note r =
    text "PayMongo reported a payment without its amount, so it wasn't confirmed"
    ++ (paymongo_code r
        ++ text
            ". Check the amount in PayMongo's dashboard, then confirm the order at the counter or refund the customer.")

pub handle_second : Snapshot → Payment → WebhookEvent → Proc (Unit {0})
unfolding same_code second_payment_note
handle_second s p e = elim e.payment_intent_id [
  | none ↦ pure tt
  | some r ↦
      if same_code p r
      then pure tt
      else flag_for_staff s.id (second_payment_note e.amount_centavos r)
]

abbrev amount_of : Intent → Option ℕ
amount_of i = if i.succeeded then some i.amount_centavos else none

-- The amount that was paid, from the event or from the Payment Intent.
unfoldable pub paid_amount : Bool → Result Intent → WebhookEvent → Proc (Option ℕ)
paid_amount configured answer e = elim e.amount_centavos [
  | some n ↦ pure (some n)
  | none ↦ elim e.payment_intent_id [
    | none ↦ pure none
    | some r ↦ if configured then (do intent ← lift answer; pure (amount_of intent)) else pure none
  ]
]

unfoldable pub webhook_update : ℕ → WebhookEvent → PaidUpdate
webhook_update now e = elim e.payment_intent_id [
  | none ↦ record { method = none; reference = none; paid_at = now }
  | some r ↦
      if text_eq e.type payment_paid
      then record { method = some PaymentMethod.qrph; reference = some r; paid_at = now }
      else record { method = none; reference = none; paid_at = now }
]

unfoldable pub record_amount : ℕ → Snapshot → Payment → WebhookEvent → Option ℕ → Proc (Unit {0})
unfolding no_amount_note webhook_update
record_amount now s p e none = flag_for_staff s.id (no_amount_note e.payment_intent_id)
record_amount now s p e (some n) =
    record_online_payment now s n e.payment_intent_id (webhook_update now e)
      (record { method = p.method; paid_at = now })

unfoldable pub handle_first :
    ℕ → Bool → Result Intent → Snapshot → Payment → WebhookEvent → Proc (Unit {0})
unfolding paid_amount record_amount
handle_first now configured answer s p e = do
  paid ← paid_amount configured answer e
  record_amount now s p e paid

abbrev pub handle_found :
    ℕ → Bool → Result Intent → WebhookEvent → Option Snapshot → Proc (Unit {0})
handle_found now configured answer e none = pure tt
handle_found now configured answer e (some s) = elim s.payment [
  | none ↦ pure tt
  | some p ↦
      if is_open p.status then handle_first now configured answer s p e else handle_second s p e
]

unfoldable pub handle_webhook : ℕ → Bool → Bool → Result Intent → WebhookEvent → Proc (Unit {0})
unfolding is_paid_event find_order handle_first handle_second
handle_webhook now verified configured answer e db =
    if verified
    then (if is_paid_event e.type
        then handle_found now configured answer e (find_order e db) db
        else (ok tt, db))
    else (err invalid_signature, db)
