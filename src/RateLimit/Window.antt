-- ===== src/RateLimit/Window.antt =====
-- How many requests of one key a window lets through.
use zak_s_sizzling.Prelude.{
  ℕ, refl, ◌+◌, ◌-◌, ◌≡◌, ◌<◌, ◌≤◌, List, [], ◌∷◌, some, All, arith, min, length, ltb, Bool-cases,
  inl, inr,
}
use zak_s_sizzling.Prelude.Dict.{lookup, lookup-insert_self}
use zak_s_sizzling.RateLimit.{
  Entry, Limiter, Verdict, skipped, allowed, refused, request, take_slot,
}

abbrev pub passes : Verdict → ℕ
passes skipped = 1
passes (allowed e) = 1
passes (refused s) = 0

-- Requests of one key at these times, one after the other: how many are let through.
pub let_through : ℕ → ℕ → ℕ → List ℕ → Limiter → ℕ
let_through window limit key [] l = 0
let_through window limit key (now ∷ times) l =
    passes (request window limit (some key) now l).0
    + let_through window limit key times (request window limit (some key) now l).1

request_live :
    (window limit key now : ℕ) (e : Entry) (l : Limiter)
    → lookup key l.entries ≡ some e
    → now < e.reset_at
    → (e.count < limit
        → (f : Entry) × (passes (request window limit (some key) now l).0 ≡ 1)
          × (lookup key (request window limit (some key) now l).1.entries ≡ some f)
          × (f.count ≡ e.count + 1)
          × (f.reset_at ≡ e.reset_at))
      × (limit ≤ e.count
          → (passes (request window limit (some key) now l).0 ≡ 0)
            × ((request window limit (some key) now l).1 ≡ l))
unfolding request take_slot
request_live window limit key now e l h d = (
  λ c.
      let f = record e { count = e.count + 1 } in
      (f, ground (arith, h), ground (arith, h, lookup-insert_self key f l.entries), refl, refl),
  λ c. (ground (arith, h), ground (arith, h)),
)

-- Where a key has an entry, of its requests while that entry's window lasts, one after the other with
-- nothing else in between and under one limit, exactly as many are let through as the limit leaves
-- room for beyond what is counted: all of them while they fit, and none beyond the limit.
pub let_through_lem :
    (window limit key : ℕ) (e : Entry) (times : List ℕ) (l : Limiter)
    → lookup key l.entries ≡ some e
    → All (λ t. t < e.reset_at) times
    → let_through window limit key times l ≡ min (length times) (limit - e.count)
unfolding let_through
let_through_lem window limit key e [] l h a = ground arith
let_through_lem window limit key e (now ∷ times) l h (d, a) =
    let r = request_live window limit key now e l h d in
    elim (Bool-cases (ltb e.count limit)) [
      | inl c ↦
          let (f, p, k, n, same) = r.0 (ground (arith, c)) in
          let rest =
            let_through_lem window limit key f times (request window limit (some key) now l).1 k
              (rw same a) in
          ground (arith, p, rest, n)
      | inr c ↦
          let (p, k) = r.1 (ground (arith, c)) in
          let rest = let_through_lem window limit key e times l h a in ground (arith, p, k, rest)
    ]
