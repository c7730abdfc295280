-- ===== src/Alerts/Batch.antt =====
-- The alerts of one run are waiting, and there are some while any waits.
use zak_s_sizzling.Prelude.{
  ==_iff, ℕ, ap, zero, suc, ◌+◌, ◌-◌, ◌*◌, ◌≤◌, ◌≡◌, refl, ◌∙◌, Bool, true, false, ◌&&◌, ◌||◌, [],
  ◌∷◌, ◌==◌, if◌then◌else◌, arith, any, length, take,
}
use zak_s_sizzling.Alerts.{
  LowStockAlert, Alerts, is_pending, max_attempts, put_by_time, by_time, pending_rows,
  waiting_batch, waiting, is_listed, batch,
}

-- How many attempts an alert has left.
abbrev pub attempts_left : LowStockAlert → ℕ
attempts_left a = if is_pending a then max_attempts - a.attempts else 0

abbrev pub all_left : Alerts → ℕ
all_left [] = 0
all_left ((i, a) ∷ rs) = attempts_left a + all_left rs

pub all_left-le : (rs : Alerts) → all_left rs ≤ max_attempts * waiting rs
unfolding waiting
all_left-le [] = omega arith
all_left-le ((i, a) ∷ rs) = ground (arith, all_left-le rs)

pub waiting-le : (rs : Alerts) → waiting rs ≤ all_left rs
unfolding waiting
waiting-le [] = omega arith
waiting-le ((i, a) ∷ rs) = ground (arith, waiting-le rs)

is_listed-put_by_time :
    (i j : ℕ) (a : LowStockAlert) (rs : Alerts)
    → is_listed j (put_by_time (i, a) rs) ≡ ((i == j) || is_listed j rs)
unfolding put_by_time
is_listed-put_by_time i j a [] = refl
is_listed-put_by_time i j a ((k, b) ∷ rs) = ground (arith, is_listed-put_by_time i j a rs)

is_listed-by_time :
    (j : ℕ) (rs sorted : Alerts)
    → is_listed j (by_time rs sorted) ≡ (is_listed j rs || is_listed j sorted)
unfolding by_time
is_listed-by_time j [] sorted = refl
is_listed-by_time j ((i, a) ∷ rs) sorted =
    ground (
      arith,
      is_listed-by_time j rs (put_by_time (i, a) sorted),
      is_listed-put_by_time i j a sorted,
    )

is_listed-take : (n j : ℕ) (rs : Alerts) → is_listed j (take n rs) ≡ true → is_listed j rs ≡ true
is_listed-take zero j rs h = cc
is_listed-take (suc n) j [] h = h
is_listed-take (suc n) j ((i, a) ∷ rs) h = ground (arith, is_listed-take n j rs)

-- Some row is both pending and listed.
abbrev pub hits : Alerts → Alerts → Bool
hits listed rs = any (λ (r : ℕ × LowStockAlert). is_pending r.1 && is_listed r.0 listed) rs

pending_rows-hits :
    (j : ℕ) (listed rs : Alerts)
    → is_listed j (pending_rows rs) ≡ true
    → is_listed j listed ≡ true
    → hits listed rs ≡ true
pending_rows-hits j listed [] h l = cc
pending_rows-hits j listed ((i, a) ∷ rs) h l =
    ground (arith, pending_rows-hits j listed rs, ==_iff i j)

pub is_listed-waiting_batch :
    (j : ℕ) (rs : Alerts)
    → is_listed j (waiting_batch rs) ≡ true
    → is_listed j (pending_rows rs) ≡ true
unfolding waiting_batch
is_listed-waiting_batch j rs h = ground (
  arith,
  is_listed-take batch j (by_time (pending_rows rs) []) h,
  is_listed-by_time j (pending_rows rs) [],
)

pub hits-first :
    (rs listed : Alerts)
    → waiting_batch rs ≡ listed
    → (length listed == 0) ≡ false
    → hits listed rs ≡ true
hits-first rs [] e h = cc
hits-first rs ((j, a) ∷ l) e h =
    let first : is_listed j ((j, a) ∷ l) ≡ true = ground arith in
    pending_rows-hits j ((j, a) ∷ l) rs (is_listed-waiting_batch j rs (ap (is_listed j) e ∙ first))
      first

length-put_by_time :
    (r : ℕ × LowStockAlert) (rs : Alerts) → length (put_by_time r rs) ≡ length rs + 1
unfolding put_by_time
length-put_by_time (i, a) [] = refl
length-put_by_time (i, a) ((j, b) ∷ rs) = ground (arith, length-put_by_time (i, a) rs)

length-by_time : (rs sorted : Alerts) → length (by_time rs sorted) ≡ length rs + length sorted
unfolding by_time
length-by_time [] sorted = omega arith
length-by_time (r ∷ rs) sorted =
    omega (arith, length-by_time rs (put_by_time r sorted), length-put_by_time r sorted)

take-empty : (n : ℕ) (rs : Alerts) → length (take (suc n) rs) ≡ 0 → length rs ≡ 0
take-empty n [] h = refl
take-empty n (r ∷ rs) h = absurd (omega (arith, h))

-- An empty batch means that nothing waits.
pub empty_batch : (rs : Alerts) → length (waiting_batch rs) ≡ 0 → all_left rs ≡ 0
unfolding waiting_batch waiting
empty_batch rs h = omega (
  arith,
  take-empty 49 (by_time (pending_rows rs) []) h,
  length-by_time (pending_rows rs) [],
  all_left-le rs,
)
