-- ===== src/Login/Suspended.antt =====
-- What a change of an account ends, and what nobody can do to their own.
use zak_s_sizzling.Prelude.{
  ==_iff, Bool-cases, ℕ, ◌≡◌, ◌≢◌, Bool, true, false, ◌&&◌, Option, none, some, [], ◌∷◌, ◌==◌,
  arith, Option-cases, inl, inr,
}
use zak_s_sizzling.Prelude.Text.{text_eq, text_eq_refl, Text}
use zak_s_sizzling.Prelude.Dict.{Dict, lookup, lookup-insert, lookup-insert_self}
use zak_s_sizzling.Store.{UserRole, ok, err}
use zak_s_sizzling.Login.{
  User, LoginCode, Accounts, revoke_pending_codes, is_pending_code, pending_challenge, ended,
}
use zak_s_sizzling.Login.Session.{
  Jwt, AccessTokenPayload, RefreshTokenPayload, invalid_session, refresh_access_token,
}
use zak_s_sizzling.Login.Staff.{StaffChange, is_false, changed_user, update_staff_user}

-- No code of the user is pending any more.
abbrev NonePending : ℕ → Option LoginCode → Type 0
NonePending id none = Unit
NonePending id (some c) = (c.user_id == id && is_pending_code c) ≡ false

revoke_pending_codes-NonePending :
    (id now k : ℕ) (cs : Dict LoginCode)
    → NonePending id (lookup k (revoke_pending_codes id now cs))
unfolding revoke_pending_codes
revoke_pending_codes-NonePending id now k [] = tt
revoke_pending_codes-NonePending id now k ((j, c) ∷ cs) = elim (Bool-cases (j == k)) [
  | inl e ↦ ground (arith, e)
  | inr e ↦ ground (arith, e, revoke_pending_codes-NonePending id now k cs)
]

module _ {Token : Type 0} (access : Jwt Token AccessTokenPayload)
    (refresh : Jwt Token RefreshTokenPayload) (lower_case : Text → Text)
    (seeded : UserRole → Bool) where
  -- After an account is suspended, no refresh token of it is renewed, whenever it was handed out, and
  -- no code that was emailed for it is accepted.
  pub update_staff_user-suspended :
      (account : Text → ℕ) (now later k : ℕ) (id acting : Text) (c : StaffChange) (s s' : Accounts)
      (u : User) (token : Token) (r : LoginCode)
      → update_staff_user lower_case seeded account now id c acting s ≡ (ok u, s')
      → is_false c.is_active ≡ true
      → refresh.verify later token ≡ some (record { sub = account id })
      → lookup k s'.codes ≡ some r
      → r.user_id ≡ account id
      → (refresh_access_token access refresh later token s' ≡ err invalid_session)
        × (pending_challenge later k s' ≡ err ended)
  unfolding update_staff_user refresh_access_token pending_challenge
  update_staff_user-suspended account now later k id acting c s s' u token r h off t l e =
      elim (Option-cases (lookup (account id) s.users)) [
        | inl n ↦ ground (arith, n)
        | inr (old, n) ↦ (
          ground (
            arith,
            n,
            t,
            off,
            lookup-insert_self (account id) (changed_user lower_case seeded c old) s.users,
          ),
          ground (arith, n, off, l, e, revoke_pending_codes-NonePending (account id) now k s.codes),
        )
      ]

-- An account that may administer.
abbrev pub IsAdmin : Option User → Type 0
IsAdmin none = ⊥
IsAdmin (some u) = (u.is_active ≡ true) × (u.role ≡ UserRole.admin)

-- Whatever an active admin changes, on any account and whether or not it goes through, that admin is
-- an active admin still, if an id is spelled as in the admin's own token wherever it is the admin's:
-- nobody can then suspend or demote the account they act with. (An account's role is admin or staff.)
pub update_staff_user-IsAdmin :
    (lower_case : Text → Text) (seeded : UserRole → Bool) (account : Text → ℕ) (now : ℕ)
    (id acting : Text) (c : StaffChange) (s : Accounts)
    → (account id ≡ account acting → id ≡ acting)
    → c.role ≢ some UserRole.customer
    → IsAdmin (lookup (account acting) s.users)
    → IsAdmin (
        lookup
          (account acting)
          (update_staff_user lower_case seeded account now id c acting s).1.users)
unfolding update_staff_user changed_user
update_staff_user-IsAdmin lower_case seeded account now id acting c s same r a =
    let spelled : (account id == account acting) ≡ true → text_eq id acting ≡ true = λ e.
      rw (same (ground (arith, e, ==_iff (account id) (account acting)))) (text_eq_refl acting) in
    elim (Option-cases (lookup (account id) s.users)) [
      | inl n ↦ ground (arith, n)
      | inr (old, n) ↦ elim (Bool-cases (account id == account acting)) [
        | inl k ↦ ground (
          arith,
          n,
          k,
          spelled k,
          lookup-insert (account id) (account acting) (changed_user lower_case seeded c old)
              s.users,
        )
        | inr k ↦ ground (
          arith,
          n,
          k,
          lookup-insert (account id) (account acting) (changed_user lower_case seeded c old)
              s.users,
        )
      ]
    ]
