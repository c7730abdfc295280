-- ===== src/Paymongo/Signature.antt =====
-- A webhook is believed exactly if it is signed, and recent.
use zak_s_sizzling.Paymongo.Parts.{
  AreBytes, IsPlain, from_hex-to_hex, header_of, header_parts, is_filled, or_text-filled, to_hex,
  to_hex-IsPlain,
}
use zak_s_sizzling.Paymongo.{
  check_parts, split, key_value, part, or_text, from_hex, is_recent, check_signature,
  verify_webhook_signature, Bool, false,
}
use zak_s_sizzling.Prelude.{
  ℕ, sym, ◌≡◌, refl, ◌∙◌, true, Option, none, some, List, [], ◌∷◌, ◌++◌, map, arith, Option-cases,
  inl, inr, ◌⊎◌,
}
use zak_s_sizzling.Prelude.Text.{Text, text, text_eq_iff, text_eq_refl}

abbrev is_missing : Option Text → Bool
is_missing none = true
is_missing (some []) = true
is_missing (some (c ∷ t)) = false

-- Which field of a header signs it.
abbrev pub Signs : List (Text × Option Text) → Text → Type 0
Signs fields sig =
    (part (text "li") fields ≡ some sig)
    ⊎ ((is_missing (part (text "li") fields) ≡ true) × (part (text "te") fields ≡ some sig))

or_text-cases :
    (a b : Option Text) (sig : Text)
    → or_text a b ≡ some sig
    → (a ≡ some sig) ⊎ ((is_missing a ≡ true) × (b ≡ some sig))
or_text-cases none b sig h = inr (refl, h)
or_text-cases (some []) b sig h = inr (refl, h)
or_text-cases (some (c ∷ t)) b sig h = inl h

module _ (hmac : Text → Text → List ℕ) (signed_at : Text → Option ℕ) where
  verify_parts :
      (now : ℕ) (secret body t te li sig : Text)
      → is_filled secret ≡ true
      → is_filled t ≡ true
      → is_filled sig ≡ true
      → IsPlain t
      → IsPlain te
      → IsPlain li
      → or_text (some li) (some te) ≡ some sig
      → verify_webhook_signature hmac signed_at now (some secret) body (some (header_of t te li))
        ≡ check_signature hmac signed_at now secret body t sig
  unfolding verify_webhook_signature part text
  verify_parts now [] body t te li sig a b c p q r o = cc
  verify_parts now (s ∷ secret) body [] te li sig a b c p q r o = cc
  verify_parts now (s ∷ secret) body (x ∷ t) te li [] a b c p q r o = cc
  verify_parts now (s ∷ secret) body (x ∷ t) te li (y ∷ sig) a b c p q r o =
      rw (header_parts (x ∷ t) te li p q r) (rw o refl)

  signature_holds :
      (now at : ℕ) (secret body t sig : Text)
      → signed_at t ≡ some at
      → is_recent now at ≡ true
      → hmac secret (t ++ b'.' ∷ body) ≡ from_hex sig
      → check_signature hmac signed_at now secret body t sig ≡ true
  unfolding check_signature
  signature_holds now at secret body t sig e r h =
      ground (arith, e, r, h, text_eq_refl (from_hex sig))

  check_signature-signed :
      (now : ℕ) (secret body t sig : Text)
      → check_signature hmac signed_at now secret body t sig ≡ true
      → (at : ℕ) × (signed_at t ≡ some at)
        × (is_recent now at ≡ true)
        × (hmac secret (t ++ b'.' ∷ body) ≡ from_hex sig)
  unfolding check_signature
  check_signature-signed now secret body t sig h = elim (Option-cases (signed_at t)) [
    | inl e ↦ ground (arith, e, h)
    | inr (at, e) ↦ (
      at,
      e,
      ground (arith, e, h),
      text_eq_iff (hmac secret (t ++ b'.' ∷ body)) (from_hex sig) (ground (arith, e, h)),
    )
  ]

  check_parts-signed :
      (now : ℕ) (secret body : Text) (t sig : Option Text)
      → check_parts hmac signed_at now secret body t sig ≡ true
      → (u : Text) × (v : Text) × (t ≡ some u)
        × (sig ≡ some v)
        × (check_signature hmac signed_at now secret body u v ≡ true)
  check_parts-signed now secret body none sig h = cc
  check_parts-signed now secret body (some []) sig h = cc
  check_parts-signed now secret body (some (c ∷ t)) none h = cc
  check_parts-signed now secret body (some (c ∷ t)) (some []) h = cc
  check_parts-signed now secret body (some (c ∷ t)) (some (d ∷ s)) h = (c ∷ t, d ∷ s, refl, refl, h)

  -- PayMongo's own events are taken: where the secret is set and an HMAC is some bytes, a header of
  -- the documented form, whose timestamp has no comma and no equals sign and is at most five minutes
  -- off, and whose signature is the HMAC of timestamp and body in hexadecimal, is accepted, whether it
  -- stands in the field of live events or in that of test events, the other being empty.
  pub verify_webhook_signature-header_of :
      (now at : ℕ) (secret body t : Text)
      → is_filled secret ≡ true
      → is_filled t ≡ true
      → IsPlain t
      → signed_at t ≡ some at
      → is_recent now at ≡ true
      → AreBytes (hmac secret (t ++ b'.' ∷ body))
      → is_filled (to_hex (hmac secret (t ++ b'.' ∷ body))) ≡ true
      → let sig = to_hex (hmac secret (t ++ b'.' ∷ body)) in
        (verify_webhook_signature hmac signed_at now (some secret) body (some (header_of t [] sig))
          ≡ true)
        × (verify_webhook_signature hmac signed_at now
              (some secret)
              body
              (some (header_of t sig []))
            ≡ true)
  verify_webhook_signature-header_of now at secret body t a b p e r bytes c =
      let mac = hmac secret (t ++ b'.' ∷ body) in
      let plain = to_hex-IsPlain mac bytes in
      let good =
        signature_holds now at secret body t (to_hex mac) e r (sym (from_hex-to_hex mac bytes)) in
      (
        verify_parts now secret body t [] (to_hex mac) (to_hex mac) a b c p (refl, refl) plain
              (or_text-filled (to_hex mac) [] c)
            ∙ good,
        verify_parts now secret body t (to_hex mac) [] (to_hex mac) a b c p plain (refl, refl) refl
            ∙ good,
      )

  -- What is believed is signed: an accepted request has a header whose field t is a timestamp at most
  -- five minutes off, and whose field li, or te where li is missing or empty, is in hexadecimal the
  -- HMAC, under a secret that is set, of that timestamp and the body.
  pub verify_webhook_signature-signed :
      (now : ℕ) (secret : Option Text) (body : Text) (header : Option Text)
      → verify_webhook_signature hmac signed_at now secret body header ≡ true
      → (key : Text) × (fields : Text) × (t : Text) × (sig : Text) × (at : ℕ) × (secret ≡ some key)
        × (is_filled key ≡ true)
        × (header ≡ some fields)
        × (part (text "t") (map key_value (split b',' fields)) ≡ some t)
        × (Signs (map key_value (split b',' fields)) sig)
        × (signed_at t ≡ some at)
        × (is_recent now at ≡ true)
        × (hmac key (t ++ b'.' ∷ body) ≡ from_hex sig)
  unfolding verify_webhook_signature
  verify_webhook_signature-signed now none body header h = cc
  verify_webhook_signature-signed now (some []) body header h = cc
  verify_webhook_signature-signed now (some (s ∷ key)) body none h = cc
  verify_webhook_signature-signed now (some (s ∷ key)) body (some []) h = cc
  verify_webhook_signature-signed now (some (s ∷ key)) body (some (c ∷ header)) h =
      let parts = map key_value (split b',' (c ∷ header)) in
      let (t, sig, x, z, e) =
        check_parts-signed now (s ∷ key) body (part (text "t") parts)
          (or_text (part (text "li") parts) (part (text "te") parts)) h in
      let (at, f, r, m) = check_signature-signed now (s ∷ key) body t sig e in
      (
        s ∷ key,
        c ∷ header,
        t,
        sig,
        at,
        refl,
        refl,
        refl,
        x,
        or_text-cases (part (text "li") parts) (part (text "te") parts) sig z,
        f,
        r,
        m,
      )
