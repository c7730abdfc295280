-- ===== src/RateLimit/Limits.antt =====
-- The limits in use, with their keys (apps/api/src/middleware/rateLimit.ts). An environment
-- variable's number is an argument, and an address is ASCII.
use zak_s_sizzling.Prelude.{
  ℕ, ◌+◌, ◌*◌, Bool, not, ◌&&◌, Option, none, some, [], ◌++◌, ◌==◌, leb, ltb, if◌then◌else◌, map,
  take,
}
use zak_s_sizzling.Prelude.Text.{Text, text}
use zak_s_sizzling.Csv.{trim}
use zak_s_sizzling.RateLimit.{wait_text}

-- What the keys read of a request.
pub record HttpRequest : Type 0 where
  pub ip : Option Text
  pub email : Option Text
  pub kiosk_session_id : Option Text
  pub user_id : Option Text

abbrev lower : ℕ → ℕ
lower c = if leb b'A' c && leb c b'Z' then c + 32 else c

-- `trim().toLowerCase().slice(0, 254)`
pub login_email : HttpRequest → Text
login_email r = elim r.email [ none ↦ [] | some e ↦ take 254 (map lower (trim e)) ]

abbrev or_undefined : Option Text → Text
or_undefined none = text "undefined"
or_undefined (some t) = t

pub account_key : HttpRequest → Option Text
unfolding login_email
account_key r = some (or_undefined r.ip ++ (text "|" ++ login_email r))

pub address_key : HttpRequest → Option Text
address_key r = r.ip

abbrev or_then : Option Text → Option Text → Option Text
or_then none t = t
or_then (some s) t = some s

-- The kiosk session, else the signed-in user, else the address.
pub session_key : HttpRequest → Option Text
session_key r = or_then r.kiosk_session_id (or_then r.user_id r.ip)

-- A variable that is not a positive number is left aside.
pub env_number : Option ℕ → ℕ → ℕ
env_number none fallback = fallback
env_number (some n) fallback = if ltb 0 n then n else fallback

pub failed_login : ℕ → Bool
failed_login status = status == 401

pub rejected_request : ℕ → Bool
rejected_request status = leb 400 status && (ltb status 500 && not (status == 429))

abbrev always : ℕ → Bool
always status = Bool.true

pub record Limit : Type 0 where
  pub window_ms : ℕ
  pub max_requests : Option ℕ → ℕ
  pub key : HttpRequest → Option Text
  pub count_when : ℕ → Bool
  pub message : ℕ → Text

pub login_attempt_limit : Limit
unfolding account_key env_number failed_login
login_attempt_limit = record {
  window_ms = 15 * 60 * 1000;
  max_requests = λ env. env_number env 10;
  key = account_key;
  count_when = failed_login;
  message =
      λ s. text "Too many failed sign-in attempts. Try again in " ++ (wait_text s ++ text ".");
}

pub login_address_limit : Limit
unfolding address_key env_number rejected_request
login_address_limit = record {
  window_ms = 15 * 60 * 1000;
  max_requests = λ env. env_number env 50;
  key = address_key;
  count_when = rejected_request;
  message = λ s.
      text "Too many failed sign-in attempts from this network. Try again in "
      ++ (wait_text s ++ text ".");
}

pub order_placement_limit : Limit
unfolding session_key env_number
order_placement_limit = record {
  window_ms = 60 * 1000;
  max_requests = λ env. env_number env 30;
  key = session_key;
  count_when = always;
  message = λ s.
      text "Too many orders in a short time. Please wait "
      ++ (wait_text s ++ text " and try again.");
}

pub order_address_limit : Limit
unfolding address_key env_number
order_address_limit = record {
  window_ms = 60 * 1000;
  max_requests = λ env. env_number env 120;
  key = address_key;
  count_when = always;
  message = λ s.
      text "Too many orders from this network. Please wait "
      ++ (wait_text s ++ text " and try again.");
}

pub kiosk_session_limit : Limit
unfolding address_key env_number
kiosk_session_limit = record {
  window_ms = 60 * 1000;
  max_requests = λ env. env_number env 60;
  key = address_key;
  count_when = always;
  message = λ s.
      text "Too many new kiosk sessions from this network. Please wait "
      ++ (wait_text s ++ text " and try again.");
}

pub payment_start_limit : Limit
unfolding session_key env_number
payment_start_limit = record {
  window_ms = 10 * 60 * 1000;
  max_requests = λ env. env_number env 10;
  key = session_key;
  count_when = always;
  message = λ s.
      text "Too many payment attempts. Please wait "
      ++ (wait_text s ++ text ", or pay at the counter.");
}

pub payment_start_address_limit : Limit
unfolding address_key env_number
payment_start_address_limit = record {
  window_ms = 10 * 60 * 1000;
  max_requests = λ env. env_number env 60;
  key = address_key;
  count_when = always;
  message = λ s.
      text "Too many payment attempts from this network. Please wait "
      ++ (wait_text s ++ text ", or pay at the counter.");
}

pub session_refresh_limit : Limit
unfolding address_key env_number
session_refresh_limit = record {
  window_ms = 60 * 1000;
  max_requests = λ env. env_number env 60;
  key = address_key;
  count_when = always;
  message = λ s.
      text "Too many sign-in renewals from this network. Please wait " ++ (wait_text s ++ text ".");
}
