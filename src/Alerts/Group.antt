-- ===== src/Alerts/Group.antt =====
-- The email counts every alert of its batch.
use zak_s_sizzling.Prelude.{ℕ, ◌+◌, ◌≡◌, refl, List, [], ◌∷◌, arith, length}
use zak_s_sizzling.Alerts.{
  LowStockAlert, Alerts, ItemKey, Latest, add_alert, by_item, put_line, sort_lines, email_lines,
}

abbrev pub all_times : List Latest → ℕ
all_times [] = 0
all_times (l ∷ ls) = l.times + all_times ls

abbrev map_times : List (ItemKey × Latest) → ℕ
map_times [] = 0
map_times ((k, l) ∷ m) = l.times + map_times m

map_times-add_alert :
    (a : LowStockAlert) (m : List (ItemKey × Latest)) → map_times (add_alert a m) ≡ map_times m + 1
unfolding add_alert
map_times-add_alert a [] = refl
map_times-add_alert a ((k, l) ∷ m) = ground (arith, map_times-add_alert a m)

map_times-by_item :
    (rs : Alerts) (m : List (ItemKey × Latest)) → map_times (by_item rs m) ≡ map_times m + length rs
unfolding by_item
map_times-by_item [] m = omega arith
map_times-by_item ((i, a) ∷ rs) m =
    omega (arith, map_times-by_item rs (add_alert a m), map_times-add_alert a m)

all_times-put_line :
    (l : Latest) (ls : List Latest) → all_times (put_line l ls) ≡ l.times + all_times ls
unfolding put_line
all_times-put_line l [] = refl
all_times-put_line l (m ∷ ms) = ground (arith, all_times-put_line l ms)

all_times-sort_lines :
    (m : List (ItemKey × Latest)) (ls : List Latest)
    → all_times (sort_lines m ls) ≡ map_times m + all_times ls
unfolding sort_lines
all_times-sort_lines [] ls = omega arith
all_times-sort_lines ((k, l) ∷ m) ls =
    omega (arith, all_times-sort_lines m (put_line l ls), all_times-put_line l ls)

-- The times on the email's lines add up to the number of alerts in the batch: an item that ran low
-- several times has one line, and no alert is left out or counted twice.
pub email_lines-times : (rs : Alerts) → all_times (email_lines rs) ≡ length rs
unfolding email_lines
email_lines-times rs =
    omega (arith, all_times-sort_lines (by_item rs []) [], map_times-by_item rs [])
