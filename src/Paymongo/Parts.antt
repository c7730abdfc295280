-- ===== src/Paymongo/Parts.antt =====
-- How a signature header is read, and what a signature in hexadecimal stands for.
use zak_s_sizzling.Paymongo.{split, key_value, or_text, hex_digit, from_hex}
use zak_s_sizzling.Prelude.{
  ℕ, ◌+◌, ◌-◌, ◌/◌, ◌%◌, ◌<◌, ◌≡◌, refl, Bool, true, false, some, List, [], ◌∷◌, ◌++◌, ◌==◌, ltb,
  if◌then◌else◌, any, map, All, arith, Bool-cases, inl, inr,
}
use zak_s_sizzling.Prelude.Text.{Text}

abbrev pub has_char : ℕ → Text → Bool
has_char c s = any (λ x. x == c) s

split-none : (c : ℕ) (s : Text) → has_char c s ≡ false → split c s ≡ s ∷ []
unfolding split
split-none c [] h = refl
split-none c (x ∷ s) h = ground (arith, split-none c s)

split-cons : (c : ℕ) (s : Text) → (f : Text) × (r : List Text) × (split c s ≡ f ∷ r)
unfolding split
split-cons c [] = ([], [], refl)
split-cons c (x ∷ s) =
    let (f, r, e) = split-cons c s in
    elim (Bool-cases (x == c)) [
      | inl h ↦ ([], f ∷ r, ground (arith, e, h))
      | inr h ↦ (x ∷ f, r, ground (arith, e, h))
    ]

split-append :
    (c : ℕ) (s rest : Text) → has_char c s ≡ false → split c (s ++ c ∷ rest) ≡ s ∷ split c rest
unfolding split
split-append c [] rest h = let (f, r, e) = split-cons c rest in ground (arith, e)
split-append c (x ∷ s) rest h = ground (arith, split-append c s rest)

key_value_lem :
    (k v : Text)
    → has_char b'=' k ≡ false
    → has_char b'=' v ≡ false
    → key_value (k ++ b'=' ∷ v) ≡ (k, some v)
unfolding key_value
key_value_lem k v h g = ground (arith, split-append b'=' k v h, split-none b'=' v g)

-- A byte as two digits.
abbrev pub digit : ℕ → ℕ
digit n = if ltb n 10 then b'0' + n else b'a' + (n - 10)

unfoldable pub to_hex : List ℕ → Text
to_hex [] = []
to_hex (b ∷ bs) = digit (b / 16) ∷ digit (b % 16) ∷ to_hex bs

abbrev pub AreBytes : List ℕ → Type 0
AreBytes bs = All (λ b. b < 256) bs

hex_digit-digit : (n : ℕ) → n < 16 → hex_digit (digit n) ≡ some n
hex_digit-digit n h = ground arith

pub from_hex-to_hex : (bs : List ℕ) → AreBytes bs → from_hex (to_hex bs) ≡ bs
unfolding from_hex to_hex
from_hex-to_hex [] h = refl
from_hex-to_hex (b ∷ bs) (lt, h) = ground (
  arith,
  hex_digit-digit (b / 16) (omega arith),
  hex_digit-digit (b % 16) (omega arith),
  from_hex-to_hex bs h,
)

to_hex-plain :
    (c : ℕ) (bs : List ℕ)
    → ((n : ℕ) → n < 16 → (digit n == c) ≡ false)
    → AreBytes bs
    → has_char c (to_hex bs) ≡ false
unfolding to_hex
to_hex-plain c [] k h = refl
to_hex-plain c (b ∷ bs) k (lt, h) =
    ground (arith, k (b / 16) (omega arith), k (b % 16) (omega arith), to_hex-plain c bs k h)

-- `t=<timestamp>,te=<test signature>,li=<live signature>`
abbrev pub header_of : Text → Text → Text → Text
header_of t te li =
    (b't' ∷ b'=' ∷ t) ++ b',' ∷ ((b't' ∷ b'e' ∷ b'=' ∷ te) ++ b',' ∷ (b'l' ∷ b'i' ∷ b'=' ∷ li))

-- A text that stands between the header's marks.
abbrev pub IsPlain : Text → Type 0
IsPlain s = (has_char b',' s ≡ false) × (has_char b'=' s ≡ false)

pub header_parts :
    (t te li : Text)
    → IsPlain t
    → IsPlain te
    → IsPlain li
    → map key_value (split b',' (header_of t te li))
      ≡ (b't' ∷ [], some t) ∷ (b't' ∷ b'e' ∷ [], some te) ∷ (b'l' ∷ b'i' ∷ [], some li) ∷ []
header_parts t te li p q r = ground (
  arith,
  split-append b',' (b't' ∷ b'=' ∷ t)
      ((b't' ∷ b'e' ∷ b'=' ∷ te) ++ b',' ∷ (b'l' ∷ b'i' ∷ b'=' ∷ li)),
  split-append b',' (b't' ∷ b'e' ∷ b'=' ∷ te) (b'l' ∷ b'i' ∷ b'=' ∷ li),
  split-none b',' (b'l' ∷ b'i' ∷ b'=' ∷ li),
  key_value_lem (b't' ∷ []) t refl p.1,
  key_value_lem (b't' ∷ b'e' ∷ []) te refl q.1,
  key_value_lem (b'l' ∷ b'i' ∷ []) li refl r.1,
)

pub to_hex-IsPlain : (bs : List ℕ) → AreBytes bs → IsPlain (to_hex bs)
to_hex-IsPlain bs h =
    (to_hex-plain b',' bs (λ n k. ground arith) h, to_hex-plain b'=' bs (λ n k. ground arith) h)

abbrev pub is_filled : Text → Bool
is_filled [] = false
is_filled (c ∷ t) = true

pub or_text-filled : (s u : Text) → is_filled s ≡ true → or_text (some s) (some u) ≡ some s
or_text-filled [] u h = cc
or_text-filled (c ∷ s) u h = refl
