-- ===== src/Login/Tries.antt =====
-- A code works once, and no more than five codes are ever compared for one sign-in.
use zak_s_sizzling.Prelude.{
  refl, ◌<◌, ℕ, ◌+◌, ◌≤◌, ◌≡◌, Bool, true, Option, none, some, arith, Option-cases, Bool-cases, inl,
  inr, is_some,
}
use zak_s_sizzling.Prelude.Text.{Text}
use zak_s_sizzling.Prelude.Dict.{lookup, insert, lookup-insert, lookup-insert_self}
use zak_s_sizzling.Store.{ok, err}
use zak_s_sizzling.Login.{
  Accounts, LoginCode, User, Challenge, can_try, tried, used, ended, verify_challenge,
  max_wrong_codes,
}

abbrev pub TriedAtMost : ℕ → Option LoginCode → Type 0
TriedAtMost n none = Unit
TriedAtMost n (some c) = c.attempts ≤ n

module _ (matches : Text → Text → Bool) where
  verify_challenge_lem :
      (now : ℕ) (c : Challenge) (code : Text) (u : User) (s s' : Accounts)
      → verify_challenge matches now c code s ≡ (ok u, s')
      → (matches code c.code.code_hash ≡ true)
        × (u ≡ c.user)
        × ((r : LoginCode) × (lookup c.id s.codes ≡ some r)
            × (can_try now r ≡ true)
            × (lookup c.id s'.codes ≡ some (used now (tried r))))
  unfolding verify_challenge
  verify_challenge_lem now c code u s s' e = elim (Option-cases (lookup c.id s.codes)) [
    | inl n ↦ ground (arith, n)
    | inr (r, n) ↦ elim (Bool-cases (can_try now r)) [
      | inr k ↦ ground (arith, n, k)
      | inl k ↦ elim (Bool-cases (matches code c.code.code_hash)) [
        | inr m ↦ ground (arith, n, k, m)
        | inl m ↦ ground (
          arith,
          n,
          k,
          m,
          lookup-insert_self c.id (tried r) s.codes,
          lookup-insert_self c.id (used now (tried r)) (insert c.id (tried r) s.codes),
        )
      ]
    ]
  ]

  -- A used code is refused for good, whatever the earlier read had shown, and nothing changes.
  pub verify_challenge_twice :
      (now : ℕ) (c : Challenge) (code : Text) (r : LoginCode) (s : Accounts)
      → lookup c.id s.codes ≡ some r
      → is_some r.used_at ≡ true
      → verify_challenge matches now c code s ≡ (err ended, s)
  unfolding verify_challenge
  verify_challenge_twice now c code r s l h = ground (arith, l)

  -- A code is accepted only if it is right and, whatever the earlier read had shown, its row was
  -- neither used nor ended, had not expired and had fewer than five tries. The row then says when it
  -- was used, with one more try, and any later try on it is refused and changes nothing.
  pub verify_challenge-used :
      (now later : ℕ) (c d : Challenge) (code other : Text) (u : User) (s s' : Accounts)
      → verify_challenge matches now c code s ≡ (ok u, s')
      → d.id ≡ c.id
      → (matches code c.code.code_hash ≡ true)
        × (u ≡ c.user)
        × ((r : LoginCode) × (r' : LoginCode) × (lookup c.id s.codes ≡ some r)
            × (r.used_at ≡ none)
            × (r.revoked_at ≡ none)
            × (now < r.expires_at)
            × (r.attempts < 5)
            × (lookup c.id s'.codes ≡ some r')
            × (r'.used_at ≡ some now)
            × (r'.attempts ≡ r.attempts + 1))
        × (verify_challenge matches later d other s' ≡ (err ended, s'))
  verify_challenge-used now later c d code other u s s' e same =
      let (m, user, (r, l, k, l')) = verify_challenge_lem now c code u s s' e in
      (
        m,
        user,
        (
          r,
          used now (tried r),
          l,
          ground (arith, k),
          ground (arith, k),
          ground (arith, k),
          ground (arith, k),
          l',
          refl,
          refl,
        ),
        verify_challenge_twice later d other (used now (tried r)) s' (rw same l') refl,
      )

  -- Trying a code, whatever the earlier read had shown, never takes a sign-in beyond five tries.
  pub verify_challenge-TriedAtMost :
      (now : ℕ) (c : Challenge) (code : Text) (id : ℕ) (s : Accounts)
      → TriedAtMost max_wrong_codes (lookup id s.codes)
      → TriedAtMost max_wrong_codes (lookup id (verify_challenge matches now c code s).1.codes)
  unfolding verify_challenge
  verify_challenge-TriedAtMost now c code id s b =
      elim (Bool-cases (matches code c.code.code_hash)) [
        | inl m ↦ grind (arith, m, lookup-insert)
        | inr m ↦ grind (arith, m, lookup-insert)
      ]
