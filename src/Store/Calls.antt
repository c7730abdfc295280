-- ===== src/Store/Calls.antt =====
-- A service call on the database: it returns or throws, and what it committed before a throw
-- stays. `transaction` is `prisma.$transaction`: a throw inside it takes everything back.
use zak_s_sizzling.Prelude.{
  ℕ, ◌≡◌, refl, Bool, true, false, ◌==◌, Option, none, some, [], ◌∷◌, ◌++◌, if◌then◌else◌, arith,
  ◌⊎◌, inl, inr,
}
use zak_s_sizzling.Prelude.Dict.{Dict, lookup, insert, lookup-insert}
use zak_s_sizzling.Store.Data.{Db, Error, Event}

pub data Result {ℓ} (A : Type ℓ) : Type ℓ where
  ok : A → Result A
  err : Error → Result A

pub Result-cases {ℓ} :
    {A : Type ℓ} (r : Result A) → ((a : A) × (r ≡ ok a)) ⊎ ((e : Error) × (r ≡ err e))
Result-cases (ok a) = inl (a, refl)
Result-cases (err e) = inr (e, refl)

abbrev pub Proc : Type 0 → Type 0
Proc A = Db → Result A × Db

module _ {A : Type 0} where
  abbrev pub pure : A → Proc A
  pure a db = (ok a, db)

  abbrev pub throw : Error → Proc A
  throw e db = (err e, db)

  abbrev pub read : (Db → A) → Proc A
  read f db = (ok (f db), db)

  abbrev pub lift : Result A → Proc A
  lift r db = (r, db)

  -- The state after a call inside a transaction, given the state before it.
  abbrev pub settle : Db → Result A × Db → Result A × Db
  settle before (ok a, db) = (ok a, db)
  settle before (err e, db) = (err e, before)

  abbrev pub transaction : Proc A → Proc A
  transaction m db = settle db (m db)

  -- `findUniqueOrThrow`, or an explicit check with its own error.
  abbrev pub or_throw : Option A → Error → Proc A
  or_throw none e db = (err e, db)
  or_throw (some a) e db = (ok a, db)

-- A throw skips the rest.
abbrev pub continue : {A B : Type 0} → (A → Proc B) → Result A × Db → Result B × Db
continue f (ok a, db) = f a db
continue f (err e, db) = (err e, db)

infixl 5 ◌>>=◌ ◌>>◌
abbrev pub ◌>>=◌ : {A B : Type 0} → Proc A → (A → Proc B) → Proc B
◌>>=◌ m f db = continue f (m db)

abbrev pub ◌>>◌ : {A B : Type 0} → Proc A → Proc B → Proc B
m >> k = m >>= λ _. k

abbrev pub throw_if : Bool → Error → Proc (Unit {0})
throw_if c e db = (if c then err e else ok tt, db)

-- A test of the state itself.
abbrev pub throw_if_state : (Db → Bool) → Error → Proc (Unit {0})
throw_if_state f e db = throw_if (f db) e db

abbrev pub write : (Db → Db) → Proc (Unit {0})
write f db = (ok tt, f db)

abbrev pub emit : Event → Proc (Unit {0})
emit e db = (ok tt, record db { events = db.events ++ e ∷ [] })

module _ {V : Type 0} where
  -- `updateMany` on a unique key with a condition: the table, and whether a row was changed.
  abbrev pub update_where : ℕ → (V → Bool) → (V → V) → Dict V → Dict V × Bool
  update_where k p f t = elim (lookup k t) [
    | none ↦ (t, Bool.false)
    | some v ↦ if p v then (insert k (f v) t, Bool.true) else (t, Bool.false)
  ]

  -- `update` on a unique key, where the row is there.
  abbrev pub modify : ℕ → (V → V) → Dict V → Dict V
  modify k f t = elim (lookup k t) [ none ↦ t | some v ↦ insert k (f v) t ]

  -- What a conditional update leaves in a row.
  abbrev pub revised : (V → Bool) → (V → V) → Option V → Option V
  revised p f none = none
  revised p f (some v) = if p v then some (f v) else some v

  abbrev pub holds : (V → Bool) → Option V → Bool
  holds p none = false
  holds p (some v) = p v

  pub lookup-update_where :
      (k j : ℕ) (p : V → Bool) (f : V → V) (t : Dict V)
      → lookup j (update_where k p f t).0
        ≡ (if k == j then revised p f (lookup j t) else lookup j t)
  lookup-update_where k j p f t = grind (arith, lookup-insert)

  pub update_where-count :
      (k : ℕ) (p : V → Bool) (f : V → V) (t : Dict V)
      → (update_where k p f t).1 ≡ holds p (lookup k t)
  update_where-count k p f t = ground arith

  pub lookup-modify :
      (k j : ℕ) (f : V → V) (t : Dict V)
      → lookup j (modify k f t)
        ≡ (if k == j then revised (λ _. true) f (lookup j t) else lookup j t)
  lookup-modify k j f t = grind (arith, lookup-insert)
