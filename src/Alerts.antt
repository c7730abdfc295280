-- ===== src/Alerts.antt =====
-- The low-stock emails of the worker (apps/worker/src/jobs/sendLowStockAlerts.ts). What the mail
-- server answers is an argument. One run reads and marks the same rows.
pub mod Email
pub mod Group
pub mod Batch
pub mod Waiting
pub mod Settled
use zak_s_sizzling.Store.{Inventory, MaterialUnit}
use zak_s_sizzling.Prelude.{
  ℕ, ◌+◌, ◌*◌, ◌/◌, Bool, true, false, not, ◌&&◌, ◌||◌, Option, none, some, List, [], ◌∷◌, ◌++◌,
  ◌==◌, ltb, leb, if◌then◌else◌, is_some, or_else, length, take, any, keep, map,
}
use zak_s_sizzling.Prelude.Text.{Text, text, decimal}
use zak_s_sizzling.Prelude.Dict.{Dict, lookup, insert, values}
use zak_s_sizzling.Stock.Deduct.{join, unit_text}

pub record LowStockAlert : Type 0 where
  pub product_id : Option ℕ
  pub raw_material_id : Option ℕ
  pub item_name : Text
  pub stock_qty : ℕ
  pub min_stock_threshold : ℕ
  pub unit : Option MaterialUnit
  pub created_at : ℕ
  pub sent_at : Option ℕ
  pub attempts : ℕ
  pub last_error : Option Text

abbrev pub Alerts : Type 0
Alerts = Dict LowStockAlert

abbrev pub max_attempts : ℕ
max_attempts = 5

abbrev pub batch : ℕ
batch = 50

-- `pendingWhere`
abbrev pub is_pending : LowStockAlert → Bool
is_pending a = not (is_some a.sent_at) && ltb a.attempts max_attempts

unfoldable pub put_by_time : ℕ × LowStockAlert → Alerts → Alerts
put_by_time r [] = r ∷ []
put_by_time (i, a) ((j, b) ∷ rs) =
    if ltb a.created_at b.created_at then (i, a) ∷ ((j, b) ∷ rs) else (j, b) ∷ put_by_time (i, a) rs

-- `orderBy: { createdAt: "asc" }`, from a list whose earlier rows come first among equal times.
unfoldable pub by_time : Alerts → Alerts → Alerts
unfolding put_by_time
by_time [] sorted = sorted
by_time (r ∷ rs) sorted = by_time rs (put_by_time r sorted)

abbrev pub pending_rows : Alerts → Alerts
pending_rows rs = keep (λ (r : ℕ × LowStockAlert). is_pending r.1) rs

-- The alerts of one run.
unfoldable pub waiting_batch : Alerts → Alerts
unfolding by_time
waiting_batch rs = take batch (by_time (pending_rows rs) [])

unfoldable pub waiting : Alerts → ℕ
waiting rs = length (pending_rows rs)

-- An item's alerts since the last email: its latest, and how many.
pub record Latest : Type 0 where
  pub latest : LowStockAlert
  pub times : ℕ

-- The key of the map by item; product and raw material ids are never the same.
pub data ItemKey : Type 0 where
  product material : ℕ → ItemKey
  no_item : ItemKey

unfoldable pub item_key : LowStockAlert → ItemKey
item_key a = elim a.product_id [
  | some p ↦ product p
  | none ↦ elim a.raw_material_id [ some m ↦ material m | none ↦ no_item ]
]

abbrev pub same_key : ItemKey → ItemKey → Bool
same_key (product a) (product b) = a == b
same_key (material a) (material b) = a == b
same_key no_item no_item = true
same_key _ _ = false

unfoldable pub add_alert : LowStockAlert → List (ItemKey × Latest) → List (ItemKey × Latest)
unfolding item_key
add_alert a [] = (item_key a, record { latest = a; times = 1 }) ∷ []
add_alert a ((k, l) ∷ m) =
    if same_key k (item_key a)
    then (k, record { latest = a; times = l.times + 1 }) ∷ m
    else (k, l) ∷ add_alert a m

unfoldable pub by_item : Alerts → List (ItemKey × Latest) → List (ItemKey × Latest)
unfolding add_alert
by_item [] m = m
by_item ((i, a) ∷ rs) m = by_item rs (add_alert a m)

unfoldable pub put_line : Latest → List Latest → List Latest
put_line l [] = l ∷ []
put_line l (m ∷ ms) =
    if ltb l.latest.created_at m.latest.created_at then l ∷ m ∷ ms else m ∷ put_line l ms

-- `[...byItem.values()].sort(...)`, which keeps the order of equal times.
unfoldable pub sort_lines : List (ItemKey × Latest) → List Latest → List Latest
unfolding put_line
sort_lines [] sorted = sorted
sort_lines ((k, l) ∷ m) sorted = sort_lines m (put_line l sorted)

unfoldable pub email_lines : Alerts → List Latest
unfolding by_item sort_lines
email_lines rs = sort_lines (by_item rs []) []

-- What the mail server does with the email.
pub data Mailer : Type 0 where
  not_set_up : Mailer
  delivers : Mailer
  fails : (reason : Text) → Mailer

pub record SendResult : Type 0 where
  pub sent : ℕ
  pub failed : ℕ
  pub waiting : ℕ

abbrev pub is_listed : ℕ → Alerts → Bool
is_listed i rs = any (λ (r : ℕ × LowStockAlert). r.0 == i) rs

abbrev pub sent : ℕ → LowStockAlert → LowStockAlert
sent now a = record a { sent_at = some now }

abbrev pub failed_again : Text → LowStockAlert → LowStockAlert
failed_again reason a = record a { attempts = a.attempts + 1; last_error = some (take 500 reason) }

-- `updateMany({ where: { id: { in: ids } } })`
unfoldable pub update_listed : (LowStockAlert → LowStockAlert) → Alerts → Alerts → Alerts
update_listed f listed [] = []
update_listed f listed ((i, a) ∷ rs) =
    (if is_listed i listed then (i, f a) else (i, a)) ∷ update_listed f listed rs

unfoldable pub send_low_stock_alerts : ℕ → Mailer → Alerts → SendResult × Alerts
unfolding waiting waiting_batch update_listed
send_low_stock_alerts now not_set_up rs =
    (record { sent = 0; failed = 0; waiting = waiting rs }, rs)
send_low_stock_alerts now delivers rs =
    let listed = waiting_batch rs in
    let after = update_listed (sent now) listed rs in
    if length listed == 0
    then (record { sent = 0; failed = 0; waiting = 0 }, rs)
    else (record { sent = length listed; failed = 0; waiting = waiting after }, after)
send_low_stock_alerts now (fails reason) rs =
    let listed = waiting_batch rs in
    let after = update_listed (failed_again reason) listed rs in
    if length listed == 0
    then (record { sent = 0; failed = 0; waiting = 0 }, rs)
    else (record { sent = 0; failed = length listed; waiting = waiting after }, after)
