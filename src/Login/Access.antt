-- ===== src/Login/Access.antt =====
-- Who a request comes from and what it may do (apps/api/src/middleware/authenticate.ts and
-- authorize.ts).
use zak_s_sizzling.Prelude.{
  ℕ, ◌≡◌, refl, Bool, true, false, Option, none, some, List, [], ◌∷◌, any, if◌then◌else◌, arith,
  Option-cases, Bool-cases, inl, inr,
}
use zak_s_sizzling.Prelude.Text.{Text, text, starts_with}
use zak_s_sizzling.Store.{UserRole, Error, http_error, Result, ok, err}
use zak_s_sizzling.Login.{drop}
use zak_s_sizzling.Login.Session.{Jwt, AccessTokenPayload, KioskSessionPayload}

pub record RequestUser : Type 0 where
  pub id : ℕ
  pub role : UserRole
  pub name : Text
  pub email : Text

-- What the middleware writes into the request.
pub record Caller : Type 0 where
  pub user : Option RequestUser
  pub kiosk_session_id : Option ℕ

abbrev pub nobody : Caller
nobody = record { user = none; kiosk_session_id = none }

pub missing_token : Error
missing_token = http_error 401 (text "Missing bearer token")

pub invalid_token : Error
invalid_token = http_error 401 (text "Invalid or expired token")

abbrev pub user_of : AccessTokenPayload → Caller
user_of p = record {
  user = some (record { id = p.sub; role = p.role; name = p.name; email = p.email });
  kiosk_session_id = none;
}

abbrev pub guest_of : KioskSessionPayload → Caller
guest_of k = record {
  user = some (record {
    id = k.session_id;
    role = UserRole.customer;
    name = text "Kiosk Guest";
    email = [];
  });
  kiosk_session_id = some k.session_id;
}

abbrev pub bearer : Text
bearer = text "Bearer "

module _ (access : Jwt Text AccessTokenPayload) (kiosk : Jwt Text KioskSessionPayload) where
  -- A staff token, else a kiosk's.
  unfoldable pub caller_of : ℕ → Text → Result Caller
  unfolding invalid_token
  caller_of now token = elim (access.verify now token) [
    | some p ↦ ok (user_of p)
    | none ↦ elim (kiosk.verify now token) [ some k ↦ ok (guest_of k) | none ↦ err invalid_token ]
  ]

  unfoldable pub authenticate : ℕ → Option Text → Result Caller
  unfolding missing_token caller_of
  authenticate now none = err missing_token
  authenticate now (some header) =
      if starts_with header bearer then caller_of now (drop 7 header) else err missing_token

  -- An empty header counts as none.
  unfoldable pub optional_authenticate : ℕ → Option Text → Result Caller
  unfolding authenticate
  optional_authenticate now none = ok nobody
  optional_authenticate now (some []) = ok nobody
  optional_authenticate now (some (c ∷ h)) = authenticate now (some (c ∷ h))

abbrev same_role : UserRole → UserRole → Bool
same_role UserRole.admin UserRole.admin = true
same_role UserRole.staff UserRole.staff = true
same_role UserRole.customer UserRole.customer = true
same_role _ _ = false

abbrev pub may : List UserRole → UserRole → Bool
may roles r = any (λ s. same_role s r) roles

pub not_authenticated : Error
not_authenticated = http_error 401 (text "Not authenticated")

pub insufficient : Error
insufficient = http_error 403 (text "Insufficient permissions")

unfoldable pub authorize : List UserRole → Caller → Result (Unit {0})
unfolding not_authenticated insufficient
authorize roles c = elim c.user [
  | none ↦ err not_authenticated
  | some u ↦ if may roles u.role then ok tt else err insufficient
]

-- A route behind `authenticate` and `authorize`.
unfoldable pub admitted :
    Jwt Text AccessTokenPayload
    → Jwt Text KioskSessionPayload
    → List UserRole
    → ℕ
    → Option Text
    → Result (Unit {0})
unfolding authenticate authorize
admitted access kiosk roles now header = elim (authenticate access kiosk now header) [
  | err e ↦ err e
  | ok c ↦ authorize roles c
]

-- A route that customers may not use is reached only with a token that the access secret signed, not
-- expired, for one of the route's roles: no kiosk session gets there.
pub admitted-role :
    (access : Jwt Text AccessTokenPayload) (kiosk : Jwt Text KioskSessionPayload)
    (roles : List UserRole) (now : ℕ) (header : Option Text)
    → may roles UserRole.customer ≡ false
    → admitted access kiosk roles now header ≡ ok tt
    → (h : Text) × (p : AccessTokenPayload) × (header ≡ some h)
      × (starts_with h bearer ≡ true)
      × (access.verify now (drop 7 h) ≡ some p)
      × (may roles p.role ≡ true)
unfolding admitted authenticate authorize caller_of
admitted-role access kiosk roles now none c a = cc
admitted-role access kiosk roles now (some h) c a = elim (Bool-cases (starts_with h bearer)) [
  | inr e ↦ ground (arith, e)
  | inl e ↦ elim (Option-cases (access.verify now (drop 7 h))) [
    | inr (p, f) ↦ (h, p, refl, e, f, ground (arith, e, f))
    | inl f ↦ elim (Option-cases (kiosk.verify now (drop 7 h))) [
      | inl g ↦ ground (arith, e, f, g)
      | inr (k, g) ↦ ground (arith, e, f, g, c)
    ]
  ]
]
