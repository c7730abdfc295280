-- ===== src/Alerts/Waiting.antt =====
-- No alert waits forever.
use zak_s_sizzling.Alerts.Batch.{
  all_left, all_left-le, attempts_left, empty_batch, hits, hits-first, waiting-le,
}
use zak_s_sizzling.Prelude.{
  every, ℕ, ◌*◌, ◌≤◌, ◌<◌, ◌≡◌, refl, Bool, true, false, List, [], ◌∷◌, arith, length,
}
use zak_s_sizzling.Prelude.Text.{Text}
use zak_s_sizzling.Alerts.{
  LowStockAlert, Alerts, Mailer, not_set_up, delivers, fails, is_pending, max_attempts,
  waiting_batch, waiting, sent, failed_again, update_listed, send_low_stock_alerts,
}

-- A change of the listed rows that uses up an attempt of each.
module _ (f : LowStockAlert → LowStockAlert)
    (no_more : (a : LowStockAlert) → attempts_left (f a) ≤ attempts_left a)
    (one_less : (a : LowStockAlert)
      → is_pending a ≡ true
      → attempts_left (f a) < attempts_left a) where
  all_left-update_le : (listed rs : Alerts) → all_left (update_listed f listed rs) ≤ all_left rs
  unfolding update_listed
  all_left-update_le listed [] = omega arith
  all_left-update_le listed ((i, a) ∷ rs) = ground (arith, no_more a, all_left-update_le listed rs)

  all_left-update_lt :
      (listed rs : Alerts)
      → hits listed rs ≡ true
      → all_left (update_listed f listed rs) < all_left rs
  unfolding update_listed
  all_left-update_lt listed [] h = cc
  all_left-update_lt listed ((i, a) ∷ rs) h =
      ground
        (arith, no_more a, one_less a, all_left-update_le listed rs, all_left-update_lt listed rs)

sent-no_more : (now : ℕ) (a : LowStockAlert) → attempts_left (sent now a) ≤ attempts_left a
sent-no_more now a = ground arith

sent-one_less :
    (now : ℕ) (a : LowStockAlert)
    → is_pending a ≡ true
    → attempts_left (sent now a) < attempts_left a
sent-one_less now a h = ground arith

failed-no_more :
    (reason : Text) (a : LowStockAlert) → attempts_left (failed_again reason a) ≤ attempts_left a
failed-no_more reason a = ground arith

failed-one_less :
    (reason : Text) (a : LowStockAlert)
    → is_pending a ≡ true
    → attempts_left (failed_again reason a) < attempts_left a
failed-one_less reason a h = ground arith

abbrev pub is_set_up : Mailer → Bool
is_set_up not_set_up = false
is_set_up _ = true

-- A run with email set up uses up an attempt, as long as any is left.
send-all_left :
    (now : ℕ) (m : Mailer) (rs : Alerts)
    → is_set_up m ≡ true
    → 0 < all_left rs
    → all_left (send_low_stock_alerts now m rs).1 < all_left rs
unfolding send_low_stock_alerts
send-all_left now not_set_up rs s h = cc
send-all_left now delivers rs s h = ground (
  arith,
  empty_batch rs,
  hits-first rs (waiting_batch rs) refl,
  all_left-update_lt (sent now) (sent-no_more now) (sent-one_less now) (waiting_batch rs) rs,
)
send-all_left now (fails reason) rs s h = ground (
  arith,
  empty_batch rs,
  hits-first rs (waiting_batch rs) refl,
  all_left-update_lt (failed_again reason) (failed-no_more reason) (failed-one_less reason)
      (waiting_batch rs) rs,
)

send_le :
    (now : ℕ) (m : Mailer) (rs : Alerts) → all_left (send_low_stock_alerts now m rs).1 ≤ all_left rs
unfolding send_low_stock_alerts
send_le now not_set_up rs = omega arith
send_le now delivers rs = ground (
  arith,
  all_left-update_le (sent now) (sent-no_more now) (sent-one_less now) (waiting_batch rs) rs,
)
send_le now (fails reason) rs = ground (
  arith,
  all_left-update_le (failed_again reason) (failed-no_more reason) (failed-one_less reason)
      (waiting_batch rs) rs,
)

-- Runs one after another, each with its time and what the mail server does then.
abbrev pub send_runs : List (ℕ × Mailer) → Alerts → Alerts
send_runs [] rs = rs
send_runs ((now, m) ∷ ms) rs = send_runs ms (send_low_stock_alerts now m rs).1

abbrev pub all_set_up : List (ℕ × Mailer) → Bool
all_set_up ms = every (λ (m : ℕ × Mailer). is_set_up m.1) ms

send_runs-all_left :
    (ms : List (ℕ × Mailer)) (rs : Alerts)
    → all_set_up ms ≡ true
    → all_left rs ≤ length ms
    → all_left (send_runs ms rs) ≡ 0
send_runs-all_left [] rs u h = omega arith
send_runs-all_left ((now, m) ∷ ms) rs u h =
    send_runs-all_left ms (send_low_stock_alerts now m rs).1 (ground arith)
      (ground (arith, send_le now m rs, send-all_left now m rs))

-- While email is set up and no new alert comes, five runs for each waiting alert are enough,
-- whatever the mail server does: then none waits, each was sent or given up.
pub send_runs-waiting :
    (ms : List (ℕ × Mailer)) (rs : Alerts)
    → all_set_up ms ≡ true
    → max_attempts * waiting rs ≤ length ms
    → waiting (send_runs ms rs) ≡ 0
send_runs-waiting ms rs u h = omega (
  arith,
  waiting-le (send_runs ms rs),
  send_runs-all_left ms rs u (omega (arith, all_left-le rs)),
)
