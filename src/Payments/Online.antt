-- ===== src/Payments/Online.antt =====
-- Payments through PayMongo (apps/api/src/modules/payments/service.ts). The gateway's answers, its
-- configuration and the verified event are arguments. Amounts are centavos. As at the counter, an
-- order that was read before a later step is a snapshot; a log line of the server has no model.
pub mod Wrong
pub mod Taken
use zak_s_sizzling.Prelude.{
  ℕ, Bool, true, false, not, ◌&&◌, ◌||◌, Option, none, some, List, [], ◌∷◌, ◌++◌, ◌==◌,
  if◌then◌else◌, is_some,
}
use zak_s_sizzling.Prelude.Text.{Text, text, text_eq, includes}
use zak_s_sizzling.Prelude.Dict.{Dict, lookup, insert}
use zak_s_sizzling.Store.{
  Db, Order, OrderStatus, Payment, PaymentMethod, PaymentStatus, orders_changed, Error, http_error,
  stock_shortage, order_cancelled, paymongo_not_configured, record_not_found, Result, ok, err, Proc,
  pure, throw, read, lift, throw_if, emit, transaction, settle, continue, update_where, ◌>>=◌, ◌>>◌,
}
use zak_s_sizzling.Stock.Deduct.{TouchedStock}
use zak_s_sizzling.Orders.Dto.{OrderDto, get_order_by_id}
use zak_s_sizzling.Kitchen.{order_not_found}
use zak_s_sizzling.Kitchen.Cancel.{fixed_2}
use zak_s_sizzling.Payments.AttentionNote.{add_attention_note}
use zak_s_sizzling.Payments.Confirm.{
  Snapshot, PaidUpdate, PaidCreate, load_payable_order, mark_payment_paid_if_not_already, fulfil,
  announce_paid_order, is_paid, is_open,
}

abbrev pub holds_note : Option Text → Text → Bool
holds_note none note = false
holds_note (some t) note = includes t note

abbrev pub with_note : Text → Order → Order
with_note note o = record o {
  stock_issue = Bool.true;
  stock_issue_note = some (add_attention_note o.stock_issue_note o.stock_issue note);
}

-- Whether the note is new.
unfoldable pub add_note_for_staff : ℕ → Text → Proc Bool
add_note_for_staff order_id note db = elim (lookup order_id db.orders) [
  | none ↦ (err record_not_found, db)
  | some o ↦
      if holds_note o.stock_issue_note note
      then (ok Bool.false, db)
      else (ok Bool.true, record db { orders = insert order_id (with_note note o) db.orders })
]

abbrev pub announce_note : Bool → Proc (Unit {0})
announce_note false db = (ok tt, db)
announce_note true db = emit orders_changed db

unfoldable pub flag_for_staff : ℕ → Text → Proc (Unit {0})
unfolding add_note_for_staff
flag_for_staff order_id note = do
  is_new ← transaction (add_note_for_staff order_id note)
  announce_note is_new

unfoldable pub paymongo_code : Option Text → Text
paymongo_code none = []
paymongo_code (some []) = []
paymongo_code (some (c ∷ cs)) = text " (PayMongo " ++ ((c ∷ cs) ++ text ")")

unfoldable pub pesos : ℕ → Text
pesos n = text "₱" ++ fixed_2 n

unfoldable pub wrong_amount_note : ℕ → Order → Option Text → Text
unfolding pesos paymongo_code
wrong_amount_note paid o reference =
    pesos paid
    ++ (text " was paid online, but the order total is "
        ++ (pesos o.total_amount
            ++ (paymongo_code reference
                ++ text ". Refund it, or collect the difference, before confirming.")))

abbrev pub paid_after_cancel_note : Text
paid_after_cancel_note =
    text
      "Paid online after this order was cancelled. Refund the customer, or place the order again."

unfoldable pub ran_out_note : Text → Text
ran_out_note message =
    text "Paid online, but the stock ran out, so nothing was sent to the kitchen. "
    ++ (message ++ text " Offer the customer a substitute or a refund.")

-- The note for an error that must not be answered, since the money was taken.
unfoldable pub rollback_note : Error → Option Text
unfolding ran_out_note
rollback_note order_cancelled = some paid_after_cancel_note
rollback_note (stock_shortage ss message) = some (ran_out_note message)
rollback_note e = none

unfoldable pub fulfil_if : ℕ → ℕ → Bool → Proc (Option TouchedStock)
fulfil_if now order_id false = pure none
fulfil_if now order_id true = do touched ← fulfil now order_id; pure (some touched)

-- `null` when the payment was already processed.
unfoldable pub take_and_fulfil : ℕ → Snapshot → PaidUpdate → PaidCreate → Proc (Option TouchedStock)
unfolding fulfil_if
take_and_fulfil now s u c = do
  applied ← mark_payment_paid_if_not_already s u c
  fulfil_if now s.id applied

abbrev pub note_if : ℕ → Text → Bool → Proc Bool
note_if order_id note false = pure Bool.false
note_if order_id note true = add_note_for_staff order_id note

-- The money is recorded together with the note.
unfoldable pub take_and_flag : Snapshot → PaidUpdate → PaidCreate → Text → Proc Bool
take_and_flag s u c note = do
  applied ← mark_payment_paid_if_not_already s u c
  note_if s.id note applied

abbrev pub announce_if_paid : Snapshot → Option TouchedStock → Proc (Unit {0})
announce_if_paid s none = pure tt
announce_if_paid s (some t) = announce_paid_order s t

abbrev pub rescue : Snapshot → PaidUpdate → PaidCreate → Error → Option Text → Proc (Unit {0})
rescue s u c e none = throw e
rescue s u c e (some note) = do
  flagged ← transaction (take_and_flag s u c note)
  announce_note flagged

-- `try … catch`: the announcement does not throw, so what is caught is the transaction's error.
abbrev pub settle_payment :
    Snapshot → PaidUpdate → PaidCreate → Result (Option TouchedStock) × Db → Result (Unit {0}) × Db
settle_payment s u c (ok t, db) = announce_if_paid s t db
settle_payment s u c (err e, db) = rescue s u c e (rollback_note e) db

unfoldable pub record_online_payment :
    ℕ → Snapshot → ℕ → Option Text → PaidUpdate → PaidCreate → Proc (Unit {0})
unfolding flag_for_staff wrong_amount_note take_and_fulfil take_and_flag rollback_note
record_online_payment now s paid reference u c db =
    if paid == s.order.total_amount
    then settle_payment s u c (transaction (take_and_fulfil now s u c) db)
    else flag_for_staff s.id (wrong_amount_note paid s.order reference) db
