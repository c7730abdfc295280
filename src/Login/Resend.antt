-- ===== src/Login/Resend.antt =====
-- Sending a code again: what it needs, and that an ended sign-in stays ended.
use zak_s_sizzling.Prelude.{
  ℕ, ◌-◌, ◌*◌, ◌≤◌, ◌<◌, ◌≡◌, Bool, true, false, some, [], ◌∷◌, arith, ◌==◌, if◌then◌else◌,
  Option-cases, Bool-cases, inl, inr,
}
use zak_s_sizzling.Prelude.Text.{Text}
use zak_s_sizzling.Prelude.Dict.{Dict, lookup, lookup-insert_self}
use zak_s_sizzling.Store.{ok, err}
use zak_s_sizzling.Login.{
  Accounts, LoginCode, Challenge, CodeChallenge, can_try, can_claim, resent, ended, max_sends,
  resend_wait_seconds, max_sends_per_hour, sends_in_last_hour, may_resend, claim_resend,
  pending_challenge, resend_code, is_pending_code, revoke_pending_codes, revoked,
}

-- A row that is used or revoked is not claimed, whatever the earlier read had shown: the answer is
-- an error, and nothing changes, so an ended sign-in is not brought back.
pub claim_resend-ended :
    (now : ℕ) (c : Challenge) (hash : Text) (sent : Bool) (r : LoginCode) (s : Accounts)
    → lookup c.id s.codes ≡ some r
    → is_pending_code r ≡ false
    → claim_resend now c hash sent s ≡ (err ended, s)
unfolding claim_resend
claim_resend-ended now c hash sent r s l h = ground (arith, l, h)

-- A code that was sent again: a minute had passed, fewer than four mails were sent for this sign-in
-- and fewer than ten to the account in the last hour, tries were left, the tries already used still
-- count, and the new code is valid for ten minutes from now.
pub resend_code-resent :
    (now id : ℕ) (hash : Text) (sent : Bool) (s s' : Accounts) (answer : CodeChallenge)
    → resend_code now id hash sent s ≡ (ok answer, s')
    → (r : LoginCode) × (lookup id s.codes ≡ some r)
      × (can_try now r ≡ true)
      × (resend_wait_seconds * 1000 ≤ now - r.sent_at)
      × (r.sends < max_sends)
      × (sends_in_last_hour r.user_id now s.codes < max_sends_per_hour)
      × (lookup id s'.codes ≡ some (resent now hash r))
unfolding resend_code may_resend claim_resend pending_challenge
resend_code-resent now id hash sent s s' answer e = elim (Option-cases (lookup id s.codes)) [
  | inl n ↦ ground (arith, n)
  | inr (r, n) ↦ elim (Bool-cases (can_claim now r r)) [
    | inl k ↦ (
      r,
      n,
      ground (arith, n, k),
      ground (arith, n, k),
      ground (arith, n, k),
      ground (arith, n, k),
      grind (arith, n, k, lookup-insert_self),
    )
    | inr k ↦ ground (arith, n, k)
  ]
]

-- Every pending sign-in of the account is ended, and no row of another account changes.
pub lookup-revoke_pending_codes :
    (user_id now id : ℕ) (codes : Dict LoginCode) (c : LoginCode)
    → lookup id codes ≡ some c
    → (lookup id (revoke_pending_codes user_id now codes) ≡ some (revoked user_id now c))
      × ((if c.user_id == user_id then is_pending_code (revoked user_id now c) else false) ≡ false)
unfolding revoke_pending_codes
lookup-revoke_pending_codes user_id now id [] c l = ground arith
lookup-revoke_pending_codes user_id now id ((k, d) ∷ codes) c l =
    ground (arith, lookup-revoke_pending_codes user_id now id codes c)
