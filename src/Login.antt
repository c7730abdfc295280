-- ===== src/Login.antt =====
-- The second step of signing in: emailed codes (apps/api/src/modules/auth/loginCodes.ts). bcrypt,
-- the drawn code's hash, the fresh id and whether the mail was sent are arguments. A handler first
-- reads its row and then updates it by conditions, so a read row is an argument of what follows.
pub mod Tries
pub mod Resend
pub mod Session
pub mod Staff
pub mod Access
pub mod Suspended
use zak_s_sizzling.Prelude.{
  ℕ, zero, suc, ◌+◌, ◌-◌, ◌*◌, ◌/◌, min, Bool, true, false, not, ◌&&◌, ◌||◌, Option, none, some,
  List, [], ◌∷◌, ◌++◌, ◌==◌, ltb, leb, if◌then◌else◌, is_some, length, take,
}
use zak_s_sizzling.Prelude.Text.{Text, text, decimal}
use zak_s_sizzling.Prelude.Dict.{Dict, lookup, insert}
use zak_s_sizzling.Store.{UserRole, Error, http_error, Result, ok, err, update_where}

abbrev pub code_minutes : ℕ
code_minutes = 10

abbrev pub max_wrong_codes : ℕ
max_wrong_codes = 5

abbrev pub resend_wait_seconds : ℕ
resend_wait_seconds = 60

abbrev pub max_sends : ℕ
max_sends = 4

abbrev pub max_sends_per_hour : ℕ
max_sends_per_hour = 10

abbrev hour_ms : ℕ
hour_ms = 60 * 60 * 1000

pub record User : Type 0 where
  pub email : Text
  pub name : Text
  pub is_active : Bool
  pub role : UserRole
  pub password_hash : Text
  pub created_at : ℕ

pub record LoginCode : Type 0 where
  pub user_id : ℕ
  pub code_hash : Text
  pub attempts : ℕ
  pub sends : ℕ
  pub sent_at : ℕ
  pub expires_at : ℕ
  pub used_at : Option ℕ
  pub revoked_at : Option ℕ
  pub created_at : ℕ

pub record Accounts : Type 0 where
  pub users : Dict User
  pub codes : Dict LoginCode

abbrev pub with_codes : Accounts → Dict LoginCode → Accounts
with_codes s codes = record s { codes = codes }

-- `local.slice(0, n)`, where the part before the last `@` is `local`.
pub last_at : Text → Option ℕ
last_at [] = none
last_at (c ∷ cs) = elim (last_at cs) [
  | some n ↦ some (suc n)
  | none ↦ if c == b'@' then some 0 else none
]

abbrev pub drop : ℕ → Text → Text
drop zero t = t
drop (suc n) [] = []
drop (suc n) (c ∷ cs) = drop n cs

pub mask_email : Text → Text
unfolding last_at
mask_email email = elim (last_at email) [
  | none ↦ text "•••"
  | some at ↦
      if ltb at 1 then text "•••" else take (min 2 (at - 1)) email ++ (text "•••" ++ drop at email)
]

pub record CodeChallenge : Type 0 where
  pub challenge_id : ℕ
  pub sent_to : Text
  pub expires_in_seconds : ℕ
  pub resend_in_seconds : ℕ

pub challenge_of : ℕ → User → CodeChallenge
unfolding mask_email
challenge_of id u = record {
  challenge_id = id;
  sent_to = mask_email u.email;
  expires_in_seconds = code_minutes * 60;
  resend_in_seconds = resend_wait_seconds;
}

-- `sendsInLastHour`
unfoldable pub sends_in_last_hour : ℕ → ℕ → Dict LoginCode → ℕ
sends_in_last_hour user_id now [] = 0
sends_in_last_hour user_id now ((id, c) ∷ cs) =
    (if c.user_id == user_id && leb now (c.sent_at + hour_ms) then c.sends else 0)
    + sends_in_last_hour user_id now cs

abbrev pub is_pending_code : LoginCode → Bool
is_pending_code c = not (is_some c.used_at) && not (is_some c.revoked_at)

abbrev pub revoked : ℕ → ℕ → LoginCode → LoginCode
revoked user_id now c =
    if c.user_id == user_id && is_pending_code c then record c { revoked_at = some now } else c

-- `revokePendingCodes`
unfoldable pub revoke_pending_codes : ℕ → ℕ → Dict LoginCode → Dict LoginCode
revoke_pending_codes user_id now [] = []
revoke_pending_codes user_id now ((id, c) ∷ cs) =
    (id, revoked user_id now c) ∷ revoke_pending_codes user_id now cs

-- The rows of the last day.
pub recent_codes : ℕ → Dict LoginCode → Dict LoginCode
recent_codes now [] = []
recent_codes now ((id, c) ∷ cs) =
    let rest = recent_codes now cs in
    if ltb (c.created_at + 24 * hour_ms) now then rest else (id, c) ∷ rest

-- `usable()`: the conditions of each update.
abbrev pub usable : ℕ → LoginCode → Bool
usable now c = is_pending_code c && ltb now c.expires_at

pub too_many_this_hour : Error
too_many_this_hour =
    http_error 429
      (text "Too many sign-in codes were sent to this account in the last hour. Try again later.")

pub mail_error : Error
mail_error =
    http_error 503
      (text "We couldn't send your sign-in code. Try again in a minute, or ask an admin for help.")

pub start_over : Text → Error
start_over why = http_error 410 (why ++ text " Sign in again to get a new code.")

abbrev pub ended : Error
ended = start_over (text "This sign-in has ended.")

abbrev pub too_many_wrong : Error
too_many_wrong = start_over (text "Too many wrong codes.")

pub new_code : ℕ → ℕ → Text → LoginCode
new_code user_id now hash = record {
  user_id = user_id;
  code_hash = hash;
  attempts = 0;
  sends = 1;
  sent_at = now;
  expires_at = now + code_minutes * 60 * 1000;
  used_at = none;
  revoked_at = none;
  created_at = now;
}

-- A mail that fails takes the new row away again.
unfoldable pub start_code_challenge :
    ℕ → ℕ → User → ℕ → Text → Bool → Accounts → Result CodeChallenge × Accounts
unfolding revoke_pending_codes recent_codes new_code challenge_of
start_code_challenge now user_id u id hash sent s =
    let kept = recent_codes now (revoke_pending_codes user_id now s.codes) in
    if leb max_sends_per_hour (sends_in_last_hour user_id now s.codes)
    then (err too_many_this_hour, s)
    else if sent
    then (ok (challenge_of id u), with_codes s (insert id (new_code user_id now hash) kept))
    else (err mail_error, with_codes s kept)

pub record Challenge : Type 0 where
  pub id : ℕ
  pub code : LoginCode
  pub user : User

abbrev with_user : ℕ → LoginCode → Option User → Result Challenge
with_user id c none = err ended
with_user id c (some u) =
    if u.is_active then ok (record { id = id; code = c; user = u }) else err ended

-- A pending challenge, or the reason that it can no longer be used.
unfoldable pub pending_challenge : ℕ → ℕ → Accounts → Result Challenge
pending_challenge now id s = elim (lookup id s.codes) [
  | none ↦ err ended
  | some c ↦
      if not (is_pending_code c)
      then err ended
      else if leb c.expires_at now
      then err (start_over (text "The code has expired."))
      else if leb max_wrong_codes c.attempts
      then err too_many_wrong
      else with_user id c (lookup c.user_id s.users)
]

pub wrong_code : ℕ → Error
wrong_code left = http_error 401 (
    text "That code isn't right. "
    ++ (decimal left ++ ((if left == 1 then text " try" else text " tries") ++ text " left.")))

abbrev pub can_try : ℕ → LoginCode → Bool
can_try now c = usable now c && ltb c.attempts max_wrong_codes

abbrev pub tried : LoginCode → LoginCode
tried c = record c { attempts = c.attempts + 1 }

abbrev pub used : ℕ → LoginCode → LoginCode
used now c = record c { used_at = some now }

-- `MAX_WRONG_CODES - (attempts + 1)`, of the row as it was read.
abbrev refused_code : LoginCode → Error
refused_code c =
    if leb max_wrong_codes (c.attempts + 1)
    then too_many_wrong
    else wrong_code (max_wrong_codes - (c.attempts + 1))

module _ (matches : Text → Text → Bool) where
  -- From the row that was read on: a try is taken, and then the code is compared.
  unfoldable pub verify_challenge : ℕ → Challenge → Text → Accounts → Result User × Accounts
  verify_challenge now c code s =
      let (codes, took) = update_where c.id (can_try now) tried s.codes in
      let (codes', done) = update_where c.id (usable now) (used now) codes in
      if took
      then (if matches code c.code.code_hash
          then (if done then ok c.user else err ended, with_codes s codes')
          else (err (refused_code c.code), with_codes s codes))
      else (err ended, with_codes s codes)

  unfoldable pub verify_code : ℕ → ℕ → Text → Accounts → Result User × Accounts
  unfolding verify_challenge pending_challenge
  verify_code now id code s = elim (pending_challenge now id s) [
    | err e ↦ (err e, s)
    | ok c ↦ verify_challenge now c code s
  ]

pub wait_error : ℕ → Error
wait_error wait = http_error 429 (
    text "Wait "
    ++ (decimal wait
        ++ (text " second"
            ++ ((if wait == 1 then [] else text "s") ++ text " before asking for a new code."))))

abbrev pub can_claim : ℕ → LoginCode → LoginCode → Bool
can_claim now read c = can_try now c && c.sends == read.sends

abbrev pub resent : ℕ → Text → LoginCode → LoginCode
resent now hash c = record c {
  code_hash = hash;
  sends = c.sends + 1;
  sent_at = now;
  expires_at = now + code_minutes * 60 * 1000;
}

-- The checks before the row is claimed.
unfoldable pub may_resend : ℕ → Challenge → Accounts → Result (Unit {0})
may_resend now c s =
    if ltb (now - c.code.sent_at) (resend_wait_seconds * 1000)
    then err (wait_error ((resend_wait_seconds * 1000 - (now - c.code.sent_at) + 999) / 1000))
    else if leb max_sends c.code.sends
    then err (start_over (text "That's the most codes for one sign-in."))
    else if leb max_sends_per_hour (sends_in_last_hour c.code.user_id now s.codes)
    then err too_many_this_hour
    else ok tt

-- The row is claimed first, and the mail is sent then.
unfoldable pub claim_resend :
    ℕ → Challenge → Text → Bool → Accounts → Result CodeChallenge × Accounts
claim_resend now c hash sent s =
    let (codes, claimed) = update_where c.id (can_claim now c.code) (resent now hash) s.codes in
    (
      if claimed
          then (if sent then ok (challenge_of c.id c.user) else err mail_error)
          else err ended,
      with_codes s codes,
    )

unfoldable pub resend_code : ℕ → ℕ → Text → Bool → Accounts → Result CodeChallenge × Accounts
unfolding may_resend claim_resend pending_challenge
resend_code now id hash sent s = elim (pending_challenge now id s) [
  | err e ↦ (err e, s)
  | ok c ↦ elim (may_resend now c s) [ err e ↦ (err e, s) | ok u ↦ claim_resend now c hash sent s ]
]
