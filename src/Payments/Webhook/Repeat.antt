-- ===== src/Payments/Webhook/Repeat.antt =====
-- Deliveries of the same event: the first takes the payment, a repeat changes nothing.
use zak_s_sizzling.Prelude.{ℕ, ◌≡◌, refl, Bool, true, false, some, arith, inl, inr, ==_refl}
use zak_s_sizzling.Prelude.Text.{Text, text_eq_refl}
use zak_s_sizzling.Prelude.Dict.{lookup, lookup-insert}
use zak_s_sizzling.Store.{Db, Order, Payment, PaymentStatus, PaymentMethod, Result, ok, err}
use zak_s_sizzling.Payments.Confirm.{Snapshot, PaidUpdate, PaidCreate, is_open, confirm}
use zak_s_sizzling.Payments.Online.{record_online_payment}
use zak_s_sizzling.Orders.PrepTime.{set_estimate}
use zak_s_sizzling.Payments.Confirm.Mark.{IsMarked-fields}
use zak_s_sizzling.Payments.Online.Taken.{record_online_payment_outcome}
use zak_s_sizzling.Payments.Webhook.{
  WebhookEvent, Intent, payment_paid, invalid_signature, is_paid_event, find_order, event_order_id,
  same_code, handle_second, handle_first, handle_webhook, paid_amount, record_amount,
  webhook_update,
}

-- The event of a QR Ph payment that names its order, its Payment Intent and its amount.
abbrev pub qrph_event : ℕ → Text → ℕ → WebhookEvent
qrph_event order_id r n = record {
  type = payment_paid;
  order_id = some order_id;
  payment_intent_id = some r;
  amount_centavos = some n;
}

-- A request without a good signature changes nothing and answers 401.
pub handle_webhook_unverified :
    (now : ℕ) (configured : Bool) (answer : Result Intent) (e : WebhookEvent) (db : Db)
    → handle_webhook now false configured answer e db ≡ (err invalid_signature, db)
unfolding handle_webhook
handle_webhook_unverified now configured answer e db = refl

qrph_event_paid :
    (order_id : ℕ) (r : Text) (n : ℕ) → is_paid_event (qrph_event order_id r n).type ≡ true
unfolding is_paid_event
qrph_event_paid order_id r n = ground (arith, text_eq_refl payment_paid)

abbrev pub QrPhPaid : Text → Payment → Type 0
QrPhPaid r p = (is_open p.status ≡ false) × (p.method ≡ PaymentMethod.qrph) × (p.reference ≡ some r)

-- A repeat of the event that paid the order changes nothing, also once it has been refunded.
pub handle_webhook_repeat :
    (now order_id : ℕ) (r : Text) (n : ℕ) (configured : Bool) (answer : Result Intent) (o : Order)
    (p : Payment) (db : Db)
    → lookup order_id db.orders ≡ some o
    → lookup order_id db.payments ≡ some p
    → QrPhPaid r p
    → handle_webhook now true configured answer (qrph_event order_id r n) db ≡ (ok tt, db)
unfolding handle_webhook find_order event_order_id handle_second same_code
handle_webhook_repeat now order_id r n configured answer o p db l e q =
    ground (arith, l, e, q, qrph_event_paid order_id r n, text_eq_refl r)

-- The first delivery is the recording of its amount.
handle_webhook_first :
    (now order_id : ℕ) (r : Text) (n : ℕ) (configured : Bool) (answer : Result Intent) (o : Order)
    (p : Payment) (db : Db)
    → lookup order_id db.orders ≡ some o
    → lookup order_id db.payments ≡ some p
    → is_open p.status ≡ true
    → handle_webhook now true configured answer (qrph_event order_id r n) db
      ≡ record_online_payment now
          (record { id = order_id; order = o; payment = some p })
          n
          (some r)
          (record { method = some PaymentMethod.qrph; reference = some r; paid_at = now })
          (record { method = p.method; paid_at = now })
          db
unfolding handle_webhook find_order event_order_id handle_first paid_amount record_amount
    webhook_update
handle_webhook_first now order_id r n configured answer o p db l e q =
    ground (arith, l, e, q, qrph_event_paid order_id r n, text_eq_refl payment_paid)

-- PayMongo delivers the event of a payment of the right amount, for an order whose row is not
-- settled, and the first delivery returns: the row is paid by QR Ph with the event's code, and any
-- later delivery changes nothing.
pub handle_webhook_twice :
    (now later order_id : ℕ) (r : Text) (configured : Bool) (answer again : Result Intent)
    (o : Order) (p : Payment) (db db' : Db)
    → lookup order_id db.orders ≡ some o
    → lookup order_id db.payments ≡ some p
    → is_open p.status ≡ true
    → handle_webhook now true configured answer (qrph_event order_id r o.total_amount) db
      ≡ (ok tt, db')
    → ((q : Payment) × (lookup order_id db'.payments ≡ some q)
        × (q.status ≡ PaymentStatus.paid)
        × QrPhPaid r q
        × (q.amount ≡ p.amount))
      × (handle_webhook later true configured again (qrph_event order_id r o.total_amount) db'
          ≡ (ok tt, db'))
handle_webhook_twice now later order_id r configured answer again o p db db' l e q h =
    let s : Snapshot = record { id = order_id; order = o; payment = some p } in
    let u : PaidUpdate = record {
      method = some PaymentMethod.qrph;
      reference = some r;
      paid_at = now;
    } in
    let c : PaidCreate = record { method = p.method; paid_at = now } in
    let (paid, done) =
      record_online_payment_outcome now s (some r) u c db db' (ground (arith, e))
        (ground (arith, e, q))
        (ground (
          arith,
          handle_webhook_first now order_id r o.total_amount configured answer o p db l e q,
        )) in
    let (row, rows, is_paid, marked) = paid in
    let found : lookup order_id db'.payments ≡ some row = grind (arith, rows, lookup-insert) in
    let f = IsMarked-fields s PaymentMethod.qrph r now c p row (ground (arith, marked, e)) in
    let qr : QrPhPaid r row = (ground (arith, f), f.1, f.2) in
    (
      (row, found, is_paid, qr, f.4),
      elim done [
        | inl (o1, minutes, l1, k, l2, tasks) ↦
            handle_webhook_repeat later order_id r o.total_amount configured again
              (set_estimate now minutes (confirm o1)) row db'
              (ground (arith, l2 order_id, ==_refl order_id)) found qr
        | inr (o1, o2, x, note, w, l1, told, l2, i1, i2, i3) ↦
            handle_webhook_repeat later order_id r o.total_amount configured again o2 row db'
              (ground (arith, l2 order_id, ==_refl order_id)) found qr
      ],
    )
