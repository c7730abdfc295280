-- ===== src/Login/Session.antt =====
-- Signing in and renewing a session (apps/api/src/modules/auth/service.ts, with the tokens of
-- apps/api/src/lib/jwt.ts). The token library signs a payload for a time and gives it back until
-- then; `lower_case` is `toLowerCase`, and `matches` compares with bcrypt.
use zak_s_sizzling.Prelude.{
  ℕ, ◌+◌, ◌*◌, ◌≡◌, Bool, true, not, ◌&&◌, Option, none, some, [], ◌∷◌, ltb, if◌then◌else◌, arith,
  Option-cases, inl, inr,
}
use zak_s_sizzling.Prelude.Text.{Text, text, text_eq}
use zak_s_sizzling.Prelude.Dict.{Dict, lookup}
use zak_s_sizzling.Store.{UserRole, Error, http_error, Result, ok, err}
use zak_s_sizzling.Login.{
  User, Accounts, CodeChallenge, start_code_challenge, pending_challenge, verify_challenge,
}

-- One secret's tokens: `jwt.sign` with `expiresIn`, and `jwt.verify`.
pub record Jwt (Token P : Type 0) : Type 0 where
  pub sign : (issued life : ℕ) → P → Token
  pub verify : (now : ℕ) → Token → Option P
  pub verify-sign :
      (issued life now : ℕ) (p : P)
      → verify now (sign issued life p) ≡ (if ltb now (issued + life) then some p else none)

abbrev minute_ms : ℕ
minute_ms = 60 * 1000

pub record AccessTokenPayload : Type 0 where
  pub sub : ℕ
  pub role : UserRole
  pub name : Text
  pub email : Text

pub record RefreshTokenPayload : Type 0 where
  pub sub : ℕ

pub record KioskSessionPayload : Type 0 where
  pub session_id : ℕ

abbrev pub access_life : ℕ
access_life = 15 * minute_ms

abbrev pub refresh_life : ℕ
refresh_life = 6 * (60 * minute_ms)

abbrev pub kiosk_life : ℕ
kiosk_life = 2 * (60 * minute_ms)

pub invalid_password : Error
invalid_password = http_error 401 (text "Invalid email or password")

abbrev pub invalid_session : Error
invalid_session = http_error 401 (text "Invalid or expired session")

-- `findUnique` by the email, whose column is unique.
unfoldable pub find_email : Text → Dict User → Option (ℕ × User)
find_email email [] = none
find_email email ((i, u) ∷ us) = if text_eq u.email email then some (i, u) else find_email email us

pub record SessionUser : Type 0 where
  pub id : ℕ
  pub name : Text
  pub email : Text
  pub role : UserRole

abbrev pub session_user : ℕ → User → SessionUser
session_user id u = record { id = id; name = u.name; email = u.email; role = u.role }

pub record Session (Token : Type 0) : Type 0 where
  pub access_token : Token
  pub refresh_token : Token
  pub user : SessionUser

pub data LoginResult (Token : Type 0) : Type 0 where
  session : Session Token → LoginResult Token
  code_required : CodeChallenge → LoginResult Token

-- What the emailed code of a sign-in needs: a fresh id, the code's hash and the mail's delivery.
pub record CodeMail : Type 0 where
  pub id : ℕ
  pub hash : Text
  pub sent : Bool

module _ {Token : Type 0} (access : Jwt Token AccessTokenPayload)
    (refresh : Jwt Token RefreshTokenPayload) where
  unfoldable pub issue_session : ℕ → ℕ → User → Session Token
  issue_session now id u = record {
    access_token =
        access.sign now access_life
          (record { sub = id; role = u.role; name = u.name; email = u.email });
    refresh_token = refresh.sign now refresh_life (record { sub = id });
    user = session_user id u;
  }

  module _ (lower_case : Text → Text) (matches : Text → Text → Bool) where
    abbrev first_step :
        ℕ → Bool → CodeMail → ℕ → User → Accounts → Result (LoginResult Token) × Accounts
    first_step now codes_on mail id u s =
        if codes_on
        then (let (r, s') = start_code_challenge now id u mail.id mail.hash mail.sent s in
            (elim r [ ok c ↦ ok (code_required c) | err e ↦ err e ], s'))
        else (ok (session (issue_session now id u)), s)

    -- Emails are stored and compared in small letters.
    unfoldable pub login_with_password :
        ℕ → Bool → CodeMail → Text → Text → Accounts → Result (LoginResult Token) × Accounts
    unfolding invalid_password find_email issue_session start_code_challenge
    login_with_password now codes_on mail email password s =
        elim (find_email (lower_case email) s.users) [
          | none ↦ (err invalid_password, s)
          | some (id, u) ↦
              if not u.is_active
              then (err invalid_password, s)
              else if not (matches password u.password_hash)
              then (err invalid_password, s)
              else first_step now codes_on mail id u s
        ]

    -- The second step: a right code starts the session.
    unfoldable pub finish_login_with_code :
        ℕ → ℕ → Text → Accounts → Result (Session Token) × Accounts
    unfolding issue_session pending_challenge verify_challenge
    finish_login_with_code now challenge_id code s = elim (pending_challenge now challenge_id s) [
      | err e ↦ (err e, s)
      | ok c ↦
          let (r, s') = verify_challenge matches now c code s in
          (elim r [ ok u ↦ ok (issue_session now c.code.user_id u) | err e ↦ err e ], s')
    ]

  abbrev renewed : ℕ → ℕ → Option User → Result (Session Token)
  renewed now id none = err invalid_session
  renewed now id (some u) = if u.is_active then ok (issue_session now id u) else err invalid_session

  -- The user's row is read again at each renewal.
  unfoldable pub refresh_access_token : ℕ → Token → Accounts → Result (Session Token)
  unfolding issue_session
  refresh_access_token now token s = elim (refresh.verify now token) [
    | none ↦ err invalid_session
    | some payload ↦ renewed now payload.sub (lookup payload.sub s.users)
  ]

  -- A renewed session is that of an active account, with the role that the account has now, whatever
  -- an earlier token said; and its access token says the same for fifteen minutes.
  pub refresh_access_token-current :
      (now later : ℕ) (token : Token) (s : Accounts) (n : Session Token)
      → refresh_access_token now token s ≡ ok n
      → (p : RefreshTokenPayload) × (u : User) × (refresh.verify now token ≡ some p)
        × (lookup p.sub s.users ≡ some u)
        × (u.is_active ≡ true)
        × (n.user ≡ session_user p.sub u)
        × (access.verify later n.access_token ≡ (
            if ltb later (now + access_life)
            then some (record { sub = p.sub; role = u.role; name = u.name; email = u.email })
            else none))
  unfolding refresh_access_token issue_session
  refresh_access_token-current now later token s n h =
      elim (Option-cases (refresh.verify now token)) [
        | inl e ↦ ground (arith, e)
        | inr (p, e) ↦ elim (Option-cases (lookup p.sub s.users)) [
          | inl f ↦ ground (arith, e, f)
          | inr (u, f) ↦ (
            p,
            u,
            e,
            f,
            ground (arith, e, f),
            ground (arith, e, f),
            ground (
              arith,
              e,
              f,
              access.verify-sign now access_life later
                  (record { sub = p.sub; role = u.role; name = u.name; email = u.email }),
            ),
          )
        ]
      ]

  -- A refresh token that a session handed out is good for six hours and no longer, as long as the
  -- account is active.
  pub refresh_access_token-issue_session :
      (now later id : ℕ) (u u' : User) (s : Accounts)
      → lookup id s.users ≡ some u'
      → refresh_access_token later (issue_session now id u).refresh_token s ≡ (
          if ltb later (now + refresh_life) && u'.is_active
          then ok (issue_session later id u')
          else err invalid_session)
  unfolding refresh_access_token issue_session
  refresh_access_token-issue_session now later id u u' s l =
      ground (arith, l, refresh.verify-sign now refresh_life later (record { sub = id }))

pub record KioskSession (Token : Type 0) : Type 0 where
  pub token : Token
  pub session_id : ℕ

module _ {Token : Type 0} (kiosk : Jwt Token KioskSessionPayload) where
  -- A drawn session id, and its token.
  unfoldable pub create_kiosk_session : ℕ → ℕ → KioskSession Token
  create_kiosk_session now session_id = record {
    token = kiosk.sign now kiosk_life (record { session_id = session_id });
    session_id = session_id;
  }
