-- ===== src/Prelude/Ids.antt =====
-- Ids that are all different: as many of them as a list has places are the whole list.
use Prim.Native.Nat.{ℕ, ◌+◌}
use mathlib.Core.Path.{◌≡◌, refl}
use mathlib.Core.Logic.{inl, inr}
use mathlib.Core.Bool.{Bool, true, false, not, ◌&&◌}
use mathlib.Core.List.{List, [], ◌∷◌}
use native.Mathlib.Omega.{arith}
use zak_s_sizzling.Prelude.Tests.{◌==◌, if◌then◌else◌, Bool-cases}
use zak_s_sizzling.Prelude.Lists.{length, any, every}

abbrev pub includes_id : List ℕ → ℕ → Bool
includes_id ids i = any (λ j. j == i) ids

-- `new Set(ids).size === ids.length`
abbrev pub all_different : List ℕ → Bool
all_different [] = true
all_different (i ∷ ids) = not (includes_id ids i) && all_different ids

-- The first `j` of a list is taken away.
without : ℕ → List ℕ → List ℕ
without j [] = []
without j (i ∷ is) = if i == j then is else i ∷ without j is

length-without :
    (j : ℕ) (is : List ℕ) → includes_id is j ≡ true → length (without j is) + 1 ≡ length is
unfolding without
length-without j [] h = cc
length-without j (i ∷ is) h = ground (arith, length-without j is)

includes-without :
    (j i : ℕ) (is : List ℕ)
    → (j == i) ≡ false
    → includes_id is i ≡ true
    → includes_id (without j is) i ≡ true
unfolding without
includes-without j i [] n h = h
includes-without j i (k ∷ is) n h = ground (arith, includes-without j i is)

every-without :
    (j : ℕ) (ids is : List ℕ)
    → includes_id ids j ≡ false
    → every (includes_id is) ids ≡ true
    → every (includes_id (without j is)) ids ≡ true
every-without j [] is h e = refl
every-without j (k ∷ ids) is h e = ground (arith, includes-without j k is, every-without j ids is)

-- As many different ids of a list as it has places are all of them.
pub includes-all :
    (i : ℕ) (ids is : List ℕ)
    → length ids ≡ length is
    → all_different ids ≡ true
    → every (includes_id is) ids ≡ true
    → includes_id is i ≡ true
    → includes_id ids i ≡ true
includes-all i [] [] n d e h = h
includes-all i [] (j ∷ is) n d e h = absurd (omega arith)
includes-all i (j ∷ ids) is n d e h = elim (Bool-cases (j == i)) [
  | inl same ↦ ground (arith, same)
  | inr other ↦ ground (
    arith,
    other,
    length-without j is,
    includes-without j i is,
    every-without j ids is,
    includes-all i ids (without j is),
  )
]
