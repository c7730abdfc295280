-- ===== src/Prelude/Text.antt =====
-- JavaScript strings as lists of UTF-16 code units. The literals of the source lie in the basic
-- plane, where a code point is one unit.
use Prim.Native.Char.{code}
use Prim.Native.Nat.{ℕ, zero, suc, ◌+◌, ◌/◌, ◌%◌}
use Prim.Native.String.{String}
use mathlib.Core.Path.{◌≡◌, refl}
use mathlib.Core.Bool.{Bool, true, false, ◌&&◌, ◌||◌}
use mathlib.Core.List.{List, [], ◌∷◌, ◌++◌}
use native.Mathlib.Omega.{arith}
use zak_s_sizzling.Prelude.Tests.{◌==◌, ltb, if◌then◌else◌}

abbrev pub Text : Type 0
Text = List ℕ

unfoldable pub text : String → Text
text String.[] = []
text (String.◌∷◌ c s) = code c ∷ text s

abbrev pub text_eq : Text → Text → Bool
text_eq [] [] = true
text_eq (a ∷ s) (b ∷ t) = a == b && text_eq s t
text_eq _ _ = false

-- `s.startsWith(t)`
abbrev pub starts_with : Text → Text → Bool
starts_with s [] = true
starts_with [] (b ∷ t) = false
starts_with (a ∷ s) (b ∷ t) = a == b && starts_with s t

-- `s.includes(t)`
abbrev pub includes : Text → Text → Bool
includes [] t = starts_with [] t
includes (a ∷ s) t = starts_with (a ∷ s) t || includes s t

-- The decimal digits of a number, with fuel for each digit.
digits : ℕ → ℕ → Text → Text
digits zero n acc = acc
digits (suc f) n acc =
    let rest = digits f (n / 10) ((b'0' + n % 10) ∷ acc) in
    if ltb n 10 then (b'0' + n) ∷ acc else rest

-- `String(n)`; a number has at most as many digits as its value plus one.
unfoldable pub decimal : ℕ → Text
unfolding digits
decimal n = digits (n + 1) n []

pub starts_with_refl : (s t : Text) → starts_with (s ++ t) s ≡ true
starts_with_refl [] t = refl
starts_with_refl (a ∷ s) t = ground (arith, starts_with_refl s t)

-- A text holds every text that was put into it, wherever it stands.
pub includes-append : (a s b : Text) → includes (a ++ (s ++ b)) s ≡ true
includes-append [] [] [] = refl
includes-append [] [] (c ∷ b) = refl
includes-append [] (c ∷ s) b = ground (arith, starts_with_refl s b)
includes-append (c ∷ a) s b = ground (arith, includes-append a s b)

pub text_eq_iff : (s t : Text) → (text_eq s t ≡ true) → s ≡ t
text_eq_iff [] [] h = refl
text_eq_iff [] (b ∷ t) h = ground arith
text_eq_iff (a ∷ s) [] h = ground arith
text_eq_iff (a ∷ s) (b ∷ t) h = ground (arith, text_eq_iff s t)

pub text_eq_refl : (s : Text) → text_eq s s ≡ true
text_eq_refl [] = refl
text_eq_refl (a ∷ s) = ground (arith, text_eq_refl s)
