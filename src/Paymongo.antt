-- ===== src/Paymongo.antt =====
-- PayMongo's client (apps/api/src/lib/paymongo.ts): the check of a webhook's signature and the
-- reading of its event. The HMAC of a secret and a message gives bytes, `signed_at` is the
-- milliseconds of a timestamp's `Number`, if that is a number that is not negative, and a body is
-- its text.
pub mod Parts
pub mod Signature
pub mod Event
use zak_s_sizzling.Prelude.{
  ℕ, ◌+◌, ◌-◌, ◌*◌, ◌/◌, ◌%◌, Bool, true, false, not, ◌&&◌, ◌||◌, Option, none, some, List, [], ◌∷◌,
  ◌++◌, ◌==◌, ltb, leb, if◌then◌else◌, is_some, length, map,
}
use zak_s_sizzling.Prelude.Text.{Text, text, text_eq}

-- `s.split(c)`: never empty.
unfoldable pub split : ℕ → Text → List Text
split c [] = [] ∷ []
split c (x ∷ s) = elim (split c s) [
  | [] ↦ (x ∷ []) ∷ []
  | first ∷ rest ↦ if x == c then [] ∷ (first ∷ rest) else (x ∷ first) ∷ rest
]

-- `[k, v] = kv.split("=")`, where a missing value is undefined.
unfoldable pub key_value : Text → Text × Option Text
unfolding split
key_value kv = elim (split b'=' kv) [
  | [] ↦ ([], none)
  | k ∷ [] ↦ (k, none)
  | k ∷ (v ∷ vs) ↦ (k, some v)
]

abbrev pub has_key : Text → List (Text × Option Text) → Bool
has_key k [] = false
has_key k ((j, v) ∷ ps) = text_eq j k || has_key k ps

-- A field of `Object.fromEntries`: the last one counts.
unfoldable pub part : Text → List (Text × Option Text) → Option Text
part k [] = none
part k ((j, v) ∷ ps) =
    let rest = part k ps in if has_key k ps then rest else if text_eq j k then v else none

-- `a || b`, of texts that may be missing or empty.
abbrev pub or_text : Option Text → Option Text → Option Text
or_text none b = b
or_text (some []) b = b
or_text (some (c ∷ t)) b = some (c ∷ t)

abbrev pub hex_digit : ℕ → Option ℕ
hex_digit c =
    if leb b'0' c && leb c b'9'
    then some (c - b'0')
    else if leb b'a' c && leb c b'f'
    then some (c - b'a' + 10)
    else if leb b'A' c && leb c b'F'
    then some (c - b'A' + 10)
    else none

abbrev pub hex_byte : Option ℕ → Option ℕ → List ℕ → List ℕ
hex_byte (some a) (some b) rest = (16 * a + b) ∷ rest
hex_byte _ _ rest = []

-- `Buffer.from(s, "hex")` reads pairs of digits up to the first that is none.
unfoldable pub from_hex : Text → List ℕ
from_hex [] = []
from_hex (a ∷ []) = []
from_hex (a ∷ (b ∷ s)) = hex_byte (hex_digit a) (hex_digit b) (from_hex s)

abbrev pub replay_window_ms : ℕ
replay_window_ms = 5 * 60 * 1000

-- `Math.abs(Date.now() - signedAtMs) > REPLAY_WINDOW_MS`
abbrev pub is_recent : ℕ → ℕ → Bool
is_recent now at = leb now (at + replay_window_ms) && leb at (now + replay_window_ms)

module _ (hmac : Text → Text → List ℕ) (signed_at : Text → Option ℕ) where
  unfoldable pub check_signature : ℕ → Text → Text → Text → Text → Bool
  unfolding from_hex
  check_signature now secret body timestamp candidate = elim (signed_at timestamp) [
    | none ↦ Bool.false
    | some at ↦
        is_recent now at && text_eq (hmac secret (timestamp ++ (b'.' ∷ body))) (from_hex candidate)
  ]

  abbrev pub check_parts : ℕ → Text → Text → Option Text → Option Text → Bool
  check_parts now secret body (some (c ∷ t)) (some (d ∷ s)) =
      check_signature now secret body (c ∷ t) (d ∷ s)
  check_parts now secret body _ _ = Bool.false

  -- A live event fills `li` and a test event `te`; the other is sent empty.
  unfoldable pub verify_webhook_signature : ℕ → Option Text → Text → Option Text → Bool
  unfolding key_value part check_signature
  verify_webhook_signature now (some (s ∷ secret)) body (some (h ∷ header)) =
      let parts = map key_value (split b',' (h ∷ header)) in
      check_parts now (s ∷ secret) body (part (text "t") parts)
        (or_text (part (text "li") parts) (part (text "te") parts))
  verify_webhook_signature now _ body _ = Bool.false
