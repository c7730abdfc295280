-- ===== src/Tests/Access.antt =====
-- Sample sessions and staff accounts.
use zak_s_sizzling.Login.{
  revoke_pending_codes, User, LoginCode, Accounts, drop, ended, pending_challenge,
}
use zak_s_sizzling.Login.Access.{
  authenticate, authorize, caller_of, admitted, may, bearer, admitted-role,
}
use zak_s_sizzling.Login.Session.{
  Jwt, AccessTokenPayload, RefreshTokenPayload, KioskSessionPayload, invalid_session,
  refresh_access_token,
}
use zak_s_sizzling.Login.Staff.{changed_user, email_taken, StaffChange, update_staff_user}
use zak_s_sizzling.Prelude.{
  length, take, suc, ℕ, zero, ◌+◌, ◌≡◌, refl, Bool, true, false, Option, none, some, List, [], ◌∷◌,
  ◌++◌, ltb, arith, if◌then◌else◌,
}
use zak_s_sizzling.Prelude.Text.{Text, text, starts_with}
use zak_s_sizzling.Prelude.Dict.{lookup}
use zak_s_sizzling.Store.{UserRole, err, ok}
use zak_s_sizzling.Login.Suspended.{IsAdmin, update_staff_user-suspended, update_staff_user-IsAdmin}

-- A signed token: when it ends, and what it says; a refresh token says who.
abbrev access_jwt : Jwt (ℕ × AccessTokenPayload) AccessTokenPayload
access_jwt = record {
  sign = λ issued life p. (issued + life, p);
  verify = λ now t. if ltb now t.0 then some t.1 else none;
  verify-sign = λ issued life now p. refl;
}

abbrev says : ℕ → AccessTokenPayload
says id = record { sub = id; role = UserRole.customer; name = []; email = [] }

abbrev refresh_jwt : Jwt (ℕ × AccessTokenPayload) RefreshTokenPayload
refresh_jwt = record {
  sign = λ issued life p. (issued + life, says p.sub);
  verify = λ now t. if ltb now t.0 then some (record { sub = t.1.sub }) else none;
  verify-sign = λ issued life now p. refl;
}

abbrev owner : User
owner = record {
  email = text "owner@zak.ph";
  name = text "Zak";
  is_active = true;
  role = UserRole.admin;
  password_hash = [];
  created_at = 1;
}

abbrev cook : User
cook = record owner { email = text "cook@zak.ph"; name = text "Ana"; role = UserRole.staff }

abbrev emailed_code : LoginCode
emailed_code = record {
  user_id = 2;
  code_hash = text "h";
  attempts = 0;
  sends = 1;
  sent_at = 10;
  expires_at = 600010;
  used_at = none;
  revoked_at = none;
  created_at = 10;
}

abbrev accounts : Accounts
accounts = record { users = (1, owner) ∷ (2, cook) ∷ []; codes = (5, emailed_code) ∷ [] }

abbrev exact : Text → Text
exact t = t

abbrev all_roles : UserRole → Bool
all_roles r = true

-- The ids are one letter each.
abbrev account_of : Text → ℕ
account_of [] = 0
account_of (c ∷ t) = c

abbrev suspend : StaffChange
suspend = record {
  name = none;
  email = none;
  role = none;
  is_active = some false;
  password_hash = none;
}

abbrev suspended : Accounts
suspended = (update_staff_user exact all_roles account_of 20 (2 ∷ []) suspend (1 ∷ []) accounts).1

suspended_run :
    update_staff_user exact all_roles account_of 20 (2 ∷ []) suspend (1 ∷ []) accounts
    ≡ (ok (record cook { is_active = false }), suspended)
unfolding update_staff_user changed_user email_taken text
suspended_run = refl

abbrev revoked_code : LoginCode
revoked_code = record emailed_code { revoked_at = some 20 }

code_5 : lookup 5 suspended.codes ≡ some revoked_code
unfolding update_staff_user changed_user email_taken text revoke_pending_codes
code_5 = refl

update_staff_user-suspended_example :
    (refresh_access_token access_jwt refresh_jwt 30 (1000, says 2) suspended ≡ err invalid_session)
    × (pending_challenge 30 5 suspended ≡ err ended)
update_staff_user-suspended_example =
    update_staff_user-suspended access_jwt refresh_jwt exact all_roles account_of 20 30 5 (2 ∷ [])
      (1 ∷ []) suspend accounts suspended (record cook { is_active = false }) (1000, says 2)
      revoked_code suspended_run refl refl code_5 refl

update_staff_user-IsAdmin_example : IsAdmin (
    lookup 1
      (update_staff_user exact all_roles account_of 20 (1 ∷ []) suspend (1 ∷ []) accounts).1.users)
update_staff_user-IsAdmin_example =
    update_staff_user-IsAdmin exact all_roles account_of 20 (1 ∷ []) (1 ∷ []) suspend accounts
      (λ e. refl) (λ e. cc) (refl, refl)

abbrev number_of : UserRole → ℕ
number_of UserRole.admin = 0
number_of UserRole.staff = 1
number_of UserRole.customer = 2

abbrev role_of : ℕ → UserRole
role_of zero = UserRole.admin
role_of (suc zero) = UserRole.staff
role_of (suc (suc n)) = UserRole.customer

role_of-number_of : (r : UserRole) → role_of (number_of r) ≡ r
role_of-number_of UserRole.admin = refl
role_of-number_of UserRole.staff = refl
role_of-number_of UserRole.customer = refl

take-append : (s t : Text) → take (length s) (s ++ t) ≡ s
take-append [] t = refl
take-append (c ∷ s) t = ground (arith, take-append s t)

drop-append : (s t : Text) → drop (length s) (s ++ t) ≡ t
drop-append [] t = refl
drop-append (c ∷ s) t = ground (arith, drop-append s t)

-- A staff token is a text: when it ends, the id, the role, and the name before the email.
abbrev staff_token : ℕ → ℕ → AccessTokenPayload → Text
staff_token issued life p =
    (issued + life) ∷ p.sub ∷ number_of p.role ∷ length p.name ∷ (p.name ++ p.email)

abbrev read_staff : ℕ → Text → Option AccessTokenPayload
read_staff now (end ∷ id ∷ r ∷ n ∷ t) =
    if ltb now end
    then some (record { sub = id; role = role_of r; name = take n t; email = drop n t })
    else none
read_staff now _ = none

read_staff_lem :
    (issued life now : ℕ) (p : AccessTokenPayload)
    → read_staff now (staff_token issued life p)
      ≡ (if ltb now (issued + life) then some p else none)
read_staff_lem issued life now p =
    ground (arith, take-append p.name p.email, drop-append p.name p.email, role_of-number_of p.role)

abbrev staff_jwt : Jwt Text AccessTokenPayload
staff_jwt = record { sign = staff_token; verify = read_staff; verify-sign = read_staff_lem }

abbrev read_kiosk : ℕ → Text → Option KioskSessionPayload
read_kiosk now (end ∷ id ∷ []) = if ltb now end then some (record { session_id = id }) else none
read_kiosk now _ = none

abbrev kiosk_jwt : Jwt Text KioskSessionPayload
kiosk_jwt = record {
  sign = λ issued life p. (issued + life) ∷ p.session_id ∷ [];
  verify = read_kiosk;
  verify-sign = λ issued life now p. refl;
}

abbrev staff_only : List UserRole
staff_only = UserRole.admin ∷ UserRole.staff ∷ []

abbrev cook_header : Text
cook_header = bearer ++ 1000 ∷ 2 ∷ 1 ∷ 0 ∷ []

let_in : admitted staff_jwt kiosk_jwt staff_only 20 (some cook_header) ≡ ok tt
unfolding admitted authenticate authorize caller_of text
let_in = refl

admitted-role_example :
    (h : Text) × (p : AccessTokenPayload) × (some cook_header ≡ some h)
    × (starts_with h bearer ≡ true)
    × (read_staff 20 (drop 7 h) ≡ some p)
    × (may staff_only p.role ≡ true)
admitted-role_example =
    admitted-role staff_jwt kiosk_jwt staff_only 20 (some cook_header) refl let_in
