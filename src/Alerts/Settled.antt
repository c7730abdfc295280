-- ===== src/Alerts/Settled.antt =====
-- A settled alert is never sent again.
use zak_s_sizzling.Alerts.Batch.{is_listed-waiting_batch}
use zak_s_sizzling.Prelude.Dict.{NodupKeys, lookup}
use zak_s_sizzling.Prelude.{==_iff, ℕ, ◌≡◌, refl, false, none, some, [], ◌∷◌, arith}
use zak_s_sizzling.Alerts.{
  LowStockAlert, Alerts, Mailer, not_set_up, delivers, fails, is_pending, pending_rows,
  waiting_batch, is_listed, sent, failed_again, update_listed, send_low_stock_alerts,
}

lookup-update_listed :
    (i : ℕ) (f : LowStockAlert → LowStockAlert) (listed rs : Alerts)
    → is_listed i listed ≡ false
    → lookup i (update_listed f listed rs) ≡ lookup i rs
unfolding update_listed
lookup-update_listed i f listed [] h = refl
lookup-update_listed i f listed ((j, a) ∷ rs) h =
    ground (arith, lookup-update_listed i f listed rs h, ==_iff j i)

lookup-pending_rows :
    (i : ℕ) (rs : Alerts) → lookup i rs ≡ none → is_listed i (pending_rows rs) ≡ false
lookup-pending_rows i [] h = refl
lookup-pending_rows i ((j, a) ∷ rs) h = ground (arith, lookup-pending_rows i rs)

settled-pending_rows :
    (i : ℕ) (a : LowStockAlert) (rs : Alerts)
    → NodupKeys rs
    → lookup i rs ≡ some a
    → is_pending a ≡ false
    → is_listed i (pending_rows rs) ≡ false
settled-pending_rows i a [] n l p = cc
settled-pending_rows i a ((j, b) ∷ rs) n l p =
    ground (arith, ==_iff j i, n.0, lookup-pending_rows i rs, settled-pending_rows i a rs n.1)

settled-waiting_batch :
    (i : ℕ) (a : LowStockAlert) (rs : Alerts)
    → NodupKeys rs
    → lookup i rs ≡ some a
    → is_pending a ≡ false
    → is_listed i (waiting_batch rs) ≡ false
settled-waiting_batch i a rs n l p =
    ground (arith, is_listed-waiting_batch i rs, settled-pending_rows i a rs n l p)

-- An alert that was sent, or that was tried five times, stays as it is in every later run: it is
-- never sent again.
pub send_low_stock_alerts-settled :
    (now i : ℕ) (m : Mailer) (a : LowStockAlert) (rs : Alerts)
    → NodupKeys rs
    → lookup i rs ≡ some a
    → is_pending a ≡ false
    → lookup i (send_low_stock_alerts now m rs).1 ≡ some a
unfolding send_low_stock_alerts
send_low_stock_alerts-settled now i not_set_up a rs n l p = l
send_low_stock_alerts-settled now i delivers a rs n l p = ground (
  arith,
  lookup-update_listed i (sent now) (waiting_batch rs) rs (settled-waiting_batch i a rs n l p),
)
send_low_stock_alerts-settled now i (fails reason) a rs n l p = ground (
  arith,
  lookup-update_listed i (failed_again reason) (waiting_batch rs) rs
      (settled-waiting_batch i a rs n l p),
)
