-- ===== src/Orders/PrepTime/Estimate.antt =====
-- The estimate: what it is at least, when it is nothing, and what it does not depend on.
use mathlib.Core.Logic.{∥∥₁_elim}
use mathlib.Core.List.{Perm, Permᴰ}
use native.Mathlib.Nat.{ℕ_set}
use zak_s_sizzling.Prelude.{
  ℕ, zero, length, ◌-◌, ◌+◌, ◌*◌, ◌≤◌, ◌≡◌, refl, ◌∙◌, false, List, [], ◌∷◌, arith, keep, All, ◌↔◌,
  suc,
}
use zak_s_sizzling.Orders.PrepTime.{
  PrepLine, is_cooked, longest, servings, estimate_prep_minutes, estimate_cooked,
}

abbrev cooked : List PrepLine → List PrepLine
cooked = keep is_cooked

longest_bound : (ls : List PrepLine) → All (λ l. l.prep_minutes ≤ longest ls) ls
longest_bound [] = tt
longest_bound (l ∷ ls) = (omega arith, weaken ls (longest_bound ls))
  where
    weaken :
        (ms : List PrepLine)
        → All (λ m. m.prep_minutes ≤ longest ls) ms
        → All (λ m. m.prep_minutes ≤ longest (l ∷ ls)) ms
    weaken [] h = tt
    weaken (m ∷ ms) h = (omega arith, weaken ms h.1)

All-weaken :
    (ms : List PrepLine) (a b : ℕ)
    → a ≤ b
    → All (λ l. l.prep_minutes ≤ a) ms
    → All (λ l. l.prep_minutes ≤ b) ms
All-weaken [] a b h all = tt
All-weaken (m ∷ ms) a b h all = (omega arith, All-weaken ms a b h all.1)

longest-le-estimate : (ms : List PrepLine) (ahead : ℕ) → longest ms ≤ estimate_cooked ms ahead
longest-le-estimate [] ahead = omega arith
longest-le-estimate (m ∷ ms) ahead = omega arith

-- No dish is estimated to be ready before its own time, whatever else is ordered and however many
-- orders are ahead.
pub estimate_prep_minutes_bound :
    (ls : List PrepLine) (ahead : ℕ)
    → All (λ l. l.prep_minutes ≤ estimate_prep_minutes ls ahead) (keep is_cooked ls)
unfolding estimate_prep_minutes
estimate_prep_minutes_bound ls ahead =
    All-weaken (keep is_cooked ls) (longest (keep is_cooked ls)) _
      (longest-le-estimate (keep is_cooked ls) ahead) (longest_bound (keep is_cooked ls))

-- What the estimate depends on: how many lines are cooked, the longest and the servings.
abbrev form : ℕ → ℕ → ℕ → ℕ → ℕ
form zero l s ahead = 0
form (suc n) l s ahead = l + (s - 1) + 2 * ahead

estimate_prep_minutes-eq-form :
    (ms : List PrepLine) (ahead : ℕ)
    → estimate_cooked ms ahead ≡ form (length ms) (longest ms) (servings ms) ahead
estimate_prep_minutes-eq-form [] ahead = refl
estimate_prep_minutes-eq-form (m ∷ ms) ahead = omega arith

abbrev SameMeasures : List PrepLine → List PrepLine → Type 0
SameMeasures ms ns =
    (length ms ≡ length ns) × (longest ms ≡ longest ns) × (servings ms ≡ servings ns)

SameMeasures-cons :
    (l : PrepLine) (ms ns : List PrepLine)
    → SameMeasures (keep is_cooked ms) (keep is_cooked ns)
    → SameMeasures (keep is_cooked (l ∷ ms)) (keep is_cooked (l ∷ ns))
SameMeasures-cons l ms ns h = ground arith

Permᴰ-SameMeasures :
    {ms ns : List PrepLine} → Permᴰ ms ns → SameMeasures (keep is_cooked ms) (keep is_cooked ns)
Permᴰ-SameMeasures Permᴰ.nil = (refl, refl, refl)
Permᴰ-SameMeasures (Permᴰ.cons {a = a} {b = b} {l₁ = ms} {l₂ = ns} e p) =
    rw (← e) (SameMeasures-cons a ms ns (Permᴰ-SameMeasures p))
Permᴰ-SameMeasures (Permᴰ.swap {a = a} {b = b} {l = l} e f) = rw (← e, ← f) (swapped a b l)
  where
    swapped :
        (a b : PrepLine) (l : List PrepLine)
        → SameMeasures (keep is_cooked (a ∷ b ∷ l)) (keep is_cooked (b ∷ a ∷ l))
    swapped a b l = ground arith
Permᴰ-SameMeasures (Permᴰ.trans p q) =
    let (a, b, c) = Permᴰ-SameMeasures p in
    let (a', b', c') = Permᴰ-SameMeasures q in (a ∙ a', b ∙ b', c ∙ c')

-- The estimate does not depend on the order in which the dishes were put into the cart.
pub estimate_prep_minutes-perm :
    (ms ns : List PrepLine) (ahead : ℕ)
    → Perm ms ns
    → estimate_prep_minutes ms ahead ≡ estimate_prep_minutes ns ahead
unfolding estimate_prep_minutes
estimate_prep_minutes-perm ms ns ahead p = ∥∥₁_elim p (ℕ_set _ _) λ d. ground (
  arith,
  Permᴰ-SameMeasures d,
  estimate_prep_minutes-eq-form (keep is_cooked ms) ahead,
  estimate_prep_minutes-eq-form (keep is_cooked ns) ahead,
)

-- A line of zero minutes or zero servings.
abbrev pub IsServedAsIs : PrepLine → Type 0
IsServedAsIs l = is_cooked l ≡ false

keep-cooked_zero :
    (ls : List PrepLine) (ahead : ℕ)
    → estimate_cooked (keep is_cooked ls) ahead ≡ 0
    → All IsServedAsIs ls
keep-cooked_zero [] ahead h = tt
keep-cooked_zero (l ∷ ls) ahead h = ground (arith, keep-cooked_zero ls ahead)

keep-served_as_is : (ls : List PrepLine) → All IsServedAsIs ls → keep is_cooked ls ≡ []
keep-served_as_is [] h = refl
keep-served_as_is (l ∷ ls) h = ground (arith, keep-served_as_is ls h.1)

-- An order is ready right away, whatever the queue, exactly when nothing in it is cooked.
pub estimate_prep_minutes-eq-zero :
    (ls : List PrepLine) (ahead : ℕ) → (estimate_prep_minutes ls ahead ≡ 0) ↔ All IsServedAsIs ls
unfolding estimate_prep_minutes
estimate_prep_minutes-eq-zero ls ahead =
    (keep-cooked_zero ls ahead, λ h. rw (keep-served_as_is ls h))
