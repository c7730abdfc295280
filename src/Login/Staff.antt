-- ===== src/Login/Staff.antt =====
-- Staff accounts (apps/api/src/modules/users/service.ts). `lower_case` is `toLowerCase`, a password
-- comes with its drawn hash, and `seeded` says which roles the database has. An id comes as the text
-- of a UUID, and `account` is the row that the column finds for it, in whatever letters it is.
use zak_s_sizzling.Prelude.{
  leb, ℕ, Bool, true, false, not, ◌&&◌, ◌||◌, Option, none, some, [], ◌∷◌, ◌++◌, ◌==◌,
  if◌then◌else◌, is_some, or_else,
}
use zak_s_sizzling.Prelude.Text.{Text, text, text_eq}
use zak_s_sizzling.Prelude.Dict.{Dict, lookup, insert}
use zak_s_sizzling.Store.{UserRole, Error, http_error, Result, ok, err}
use zak_s_sizzling.Login.{User, Accounts, revoke_pending_codes}

abbrev pub is_staff : UserRole → Bool
is_staff UserRole.admin = true
is_staff UserRole.staff = true
is_staff UserRole.customer = false

unfoldable pub put_by_age : ℕ × User → Dict User → Dict User
put_by_age r [] = r ∷ []
put_by_age (i, u) ((j, v) ∷ us) =
    if leb u.created_at v.created_at then (i, u) ∷ ((j, v) ∷ us) else (j, v) ∷ put_by_age (i, u) us

-- Customers have no account; the oldest comes first.
unfoldable pub list_staff_users : Dict User → Dict User
unfolding put_by_age
list_staff_users [] = []
list_staff_users ((i, u) ∷ us) =
    let rest = list_staff_users us in if is_staff u.role then put_by_age (i, u) rest else rest

pub email_exists : Error
email_exists = http_error 409 (text "A user with that email already exists")

pub user_not_found : Error
user_not_found = http_error 404 (text "User not found")

abbrev role_text : UserRole → Text
role_text UserRole.admin = text "admin"
role_text UserRole.staff = text "staff"
role_text UserRole.customer = text "customer"

pub role_not_seeded : UserRole → Error
role_not_seeded r = http_error 500 (text "Role \"" ++ (role_text r ++ text "\" is not seeded"))

pub own_account : Error
own_account = http_error 400 (text "You can't deactivate or demote your own account")

-- The unique column: whether another account has the address.
unfoldable pub email_taken : ℕ → Text → Dict User → Bool
email_taken id email [] = false
email_taken id email ((i, u) ∷ us) =
    (not (i == id) && text_eq u.email email) || email_taken id email us

pub record StaffInput : Type 0 where
  pub name : Text
  pub email : Text
  pub password_hash : Text
  pub role : UserRole

-- A field that is left out stays as it is; a new password is its hash.
pub record StaffChange : Type 0 where
  pub name : Option Text
  pub email : Option Text
  pub role : Option UserRole
  pub is_active : Option Bool
  pub password_hash : Option Text

abbrev pub is_false : Option Bool → Bool
is_false none = false
is_false (some b) = not b

abbrev pub is_staff_role : Option UserRole → Bool
is_staff_role (some UserRole.staff) = true
is_staff_role _ = false

module _ (lower_case : Text → Text) (seeded : UserRole → Bool) where
  unfoldable pub new_user : ℕ → StaffInput → User
  new_user now i = record {
    email = lower_case i.email;
    name = i.name;
    is_active = true;
    role = i.role;
    password_hash = i.password_hash;
    created_at = now;
  }

  unfoldable pub create_staff_user : ℕ → ℕ → StaffInput → Accounts → Result User × Accounts
  unfolding role_not_seeded email_exists email_taken new_user
  create_staff_user now id i s =
      if not (seeded i.role)
      then (err (role_not_seeded i.role), s)
      else if email_taken id (lower_case i.email) s.users
      then (err email_exists, s)
      else (ok (new_user now i), record s { users = insert id (new_user now i) s.users })

  abbrev new_email : Option Text → Text → Text
  new_email none old = old
  new_email (some e) old = lower_case e

  unfoldable pub changed_user : StaffChange → User → User
  changed_user c u = record {
    email = new_email c.email u.email;
    name = or_else c.name u.name;
    is_active = or_else c.is_active u.is_active;
    role = or_else c.role u.role;
    password_hash = or_else c.password_hash u.password_hash;
    created_at = u.created_at;
  }

  abbrev pub ends_codes : StaffChange → Bool
  ends_codes c = is_some c.password_hash || (is_some c.email || is_false c.is_active)

  abbrev pub missing_role : Option UserRole → Option Error
  missing_role none = none
  missing_role (some r) = if seeded r then none else some (role_not_seeded r)

  abbrev pub save_user : ℕ → ℕ → StaffChange → User → Accounts → Result User × Accounts
  save_user now id c u s = if email_taken id u.email s.users then (err email_exists, s) else (
    ok u,
    record s {
      users = insert id u s.users;
      codes = if ends_codes c then revoke_pending_codes id now s.codes else s.codes;
    },
  )

  -- The ids are compared as texts. A changed password or address, and a suspension, end the codes that
  -- were already emailed.
  unfoldable pub update_staff_user :
      (Text → ℕ) → ℕ → Text → StaffChange → Text → Accounts → Result User × Accounts
  unfolding own_account user_not_found email_taken changed_user revoke_pending_codes role_not_seeded
      email_exists
  update_staff_user account now id c acting s =
      if text_eq id acting && (is_false c.is_active || is_staff_role c.role)
      then (err own_account, s)
      else elim (missing_role c.role) [
        | some e ↦ (err e, s)
        | none ↦ elim (lookup (account id) s.users) [
          | none ↦ (err user_not_found, s)
          | some u ↦ save_user now (account id) c (changed_user c u) s
        ]
      ]
