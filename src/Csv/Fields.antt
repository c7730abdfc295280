-- ===== src/Csv/Fields.antt =====
-- A value that is written is read back: the writer's quoting is what the reader undoes.
use zak_s_sizzling.Prelude.{
  ℕ, ◌≡◌, refl, Bool, true, false, not, ◌&&◌, ◌||◌, [], ◌∷◌, ◌++◌, arith, ◌==◌, any, Bool-cases,
  ==_iff, inl, inr,
}
use zak_s_sizzling.Prelude.Text.{Text}
use zak_s_sizzling.Csv.{
  quote, comma, newline, carriage_return, needs_quotes, double_quotes, escape, Reader, step, peek,
  loop, is_char,
}
use mathlib.Core.List.{append-nil, append_assoc}

abbrev pub with_field : Reader → Text → Bool → Reader
with_field r f q = record r { field = f; in_quotes = q }

-- Inside the quotes, doubled quotes are read as one, up to the closing quote.
loop-double_quotes :
    (r : Reader) (f : Text) (s rest : Text)
    → is_char quote (peek rest) ≡ false
    → loop (with_field r f true) false (double_quotes s ++ (quote ∷ rest))
      ≡ loop (with_field r (f ++ s) false) false rest
unfolding loop step double_quotes
loop-double_quotes r f [] rest n = rw (n, append-nil f) refl
loop-double_quotes r f (c ∷ s) rest n = elim (Bool-cases (c == quote)) [
  | inl h ↦
      rw (h, (==_iff c quote).0 h, ← append_assoc f (quote ∷ []) s)
        (loop-double_quotes r (f ++ quote ∷ []) s rest n)
  | inr h ↦
      rw (h, loop, step, h, ← append_assoc f (c ∷ []) s)
        (loop-double_quotes r (f ++ c ∷ []) s rest n)
]

abbrev pub is_plain : ℕ → Bool
is_plain c = not (needs_quotes c) && not (c == carriage_return)

loop-plain :
    (r : Reader) (f s rest : Text)
    → any (λ c. not (is_plain c)) s ≡ false
    → loop (with_field r f false) false (s ++ rest) ≡ loop (with_field r (f ++ s) false) false rest
unfolding loop step
loop-plain r f [] rest n = rw (append-nil f) refl
loop-plain r f (c ∷ s) rest n = elim (Bool-cases (c == quote)) [
  | inl h ↦ ground (arith, n, h)
  | inr h ↦ elim (Bool-cases (c == comma)) [
    | inl k ↦ ground (arith, n, k)
    | inr k ↦ elim (Bool-cases (c == newline)) [
      | inl m ↦ ground (arith, n, m)
      | inr m ↦ elim (Bool-cases (c == carriage_return)) [
        | inl q ↦ ground (arith, n, q)
        | inr q ↦
            rw (loop, step, h, k, m, q, ← append_assoc f (c ∷ []) s)
              (loop-plain r (f ++ c ∷ []) s rest (ground (arith, n)))
      ]
    ]
  ]
]

-- Reading what was written for a value, up to the end of the text or a separator: the field is the
-- value again, and the reader is outside the quotes. A value with a bare carriage return and none
-- of the characters that are quoted is left out: it is written as it is, and read as a line's end.
pub loop-escape :
    (r : Reader) (s rest : Text)
    → is_char quote (peek rest) ≡ false
    → any needs_quotes s || not (any (λ c. not (is_plain c)) s) ≡ true
    → loop (with_field r [] false) false (escape s ++ rest) ≡ loop (with_field r s false) false rest
unfolding escape loop
loop-escape r s rest n h = elim (Bool-cases (any needs_quotes s)) [
  | inl q ↦
      rw (q, loop, step, append_assoc (double_quotes s) (quote ∷ []) rest)
        (loop-double_quotes r [] s rest n)
  | inr q ↦ rw q (loop-plain r [] s rest (ground (arith, h, q)))
]
