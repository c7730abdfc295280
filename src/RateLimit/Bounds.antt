-- ===== src/RateLimit/Bounds.antt =====
-- The limiter's bounds: no window lets more than its limit through, and the map stays small.
use zak_s_sizzling.Prelude.{
  ℕ, ◌+◌, ◌-◌, ◌*◌, ◌≤◌, ◌<◌, ◌≡◌, refl, false, Option, none, some, [], ◌∷◌, arith, ◌==◌, ltb, leb,
  length, Option-cases, Bool-cases, inl, inr, ==_refl,
}
use zak_s_sizzling.Prelude.Dict.{Dict, lookup, insert, lookup-insert_self}
use zak_s_sizzling.RateLimit.{
  Entry, Limiter, max_keys, sweep_expired, live, drop_oldest, make_room, take_slot, allowed,
  refused, request, finish, retry_after_seconds,
}

-- Every key's count is at most the limit.
abbrev pub Within : ℕ → Dict Entry → Type 0
Within limit [] = Unit
Within limit ((k, e) ∷ es) = (e.count ≤ limit) × Within limit es

insert-Within :
    (limit key : ℕ) (e : Entry) (es : Dict Entry)
    → e.count ≤ limit
    → Within limit es
    → Within limit (insert key e es)
insert-Within limit key e [] c w = (c, tt)
insert-Within limit key e ((k, f) ∷ es) c (d, w) = elim (Bool-cases (k == key)) [
  | inl h ↦ rw h (c, w)
  | inr h ↦ rw h (d, insert-Within limit key e es c w)
]

lookup-Within :
    (limit key : ℕ) (e : Entry) (es : Dict Entry)
    → Within limit es
    → lookup key es ≡ some e
    → e.count ≤ limit
lookup-Within limit key e [] w h = ground arith
lookup-Within limit key e ((k, f) ∷ es) (d, w) h = ground (arith, lookup-Within limit key e es w)

sweep_expired-Within :
    (limit now : ℕ) (es : Dict Entry) → Within limit es → Within limit (sweep_expired now es)
unfolding sweep_expired
sweep_expired-Within limit now [] w = tt
sweep_expired-Within limit now ((k, e) ∷ es) (d, w) = elim (Bool-cases (leb e.reset_at now)) [
  | inl h ↦ rw h (sweep_expired-Within limit now es w)
  | inr h ↦ rw h (d, sweep_expired-Within limit now es w)
]

drop_oldest-Within :
    (limit m : ℕ) (es : Dict Entry) → Within limit es → Within limit (drop_oldest m es)
unfolding drop_oldest
drop_oldest-Within limit m [] w = tt
drop_oldest-Within limit m (e ∷ es) w = elim (Bool-cases (ltb (length (e ∷ es)) m)) [
  | inl h ↦ rw h w
  | inr h ↦ rw h (drop_oldest-Within limit m es w.1)
]

make_room-Within :
    (limit now : ℕ) (es : Dict Entry) → Within limit es → Within limit (make_room now es)
unfolding make_room
make_room-Within limit now es w = elim (Bool-cases (leb max_keys (length es))) [
  | inl h ↦ rw h (
      drop_oldest-Within limit max_keys (sweep_expired now es)
        (sweep_expired-Within limit now es w))
  | inr h ↦ rw h w
]

abbrev fresh : ℕ → ℕ → Limiter → Entry
fresh window now l = record { id = l.next_id; count = 1; reset_at = now + window }

fresh-Within :
    (window limit key now : ℕ) (l : Limiter)
    → 0 < limit
    → Within limit l.entries
    → Within limit (insert key (fresh window now l) (make_room now l.entries))
fresh-Within window limit key now l p w =
    insert-Within limit key (fresh window now l) (make_room now l.entries) (omega arith)
      (make_room-Within limit now l.entries w)

-- After any request, no key holds more slots than the limit: of the requests of one window that
-- were let through and count, there are never more than that.
pub request-Within :
    (window limit : ℕ) (key : Option ℕ) (now : ℕ) (l : Limiter)
    → 0 < limit
    → Within limit l.entries
    → Within limit (request window limit key now l).1.entries
unfolding request take_slot
request-Within window limit none now l p w = w
request-Within window limit (some key) now l p w = elim (Option-cases (lookup key l.entries)) [
  | inl n ↦ rw (n, take_slot) (fresh-Within window limit key now l p w)
  | inr (e, h) ↦ elim (Bool-cases (ltb now e.reset_at)) [
    | inr d ↦ rw (h, take_slot, d) (fresh-Within window limit key now l p w)
    | inl d ↦ elim (Bool-cases (leb limit e.count)) [
      | inl c ↦ rw (h, take_slot, d, c) w
      | inr c ↦
          rw (h, take_slot, d, c)
            (insert-Within limit key (record e { count = e.count + 1 }) l.entries (ground arith) w)
    ]
  ]
]

length-insert : (key : ℕ) (e : Entry) (es : Dict Entry) → length (insert key e es) ≤ length es + 1
length-insert key e [] = omega arith
length-insert key e ((k, g) ∷ es) = ground (arith, length-insert key e es)

length-insert_known :
    (key : ℕ) (e f : Entry) (es : Dict Entry)
    → lookup key es ≡ some f
    → length (insert key e es) ≡ length es
length-insert_known key e f [] h = ground arith
length-insert_known key e f ((k, g) ∷ es) h = ground (arith, length-insert_known key e f es)

length-drop_oldest : (m : ℕ) (es : Dict Entry) → 0 < m → length (drop_oldest m es) < m
unfolding drop_oldest
length-drop_oldest m [] p = p
length-drop_oldest m (e ∷ es) p = ground (arith, length-drop_oldest m es)

length-make_room : (now : ℕ) (es : Dict Entry) → length (make_room now es) < max_keys
unfolding make_room
length-make_room now es =
    ground (arith, length-drop_oldest max_keys (sweep_expired now es) (omega arith))

-- A limiter never holds more than 50,000 keys.
pub length-request :
    (window limit : ℕ) (key : Option ℕ) (now : ℕ) (l : Limiter)
    → length l.entries ≤ max_keys
    → length (request window limit key now l).1.entries ≤ max_keys
unfolding request take_slot
length-request window limit none now l b = b
length-request window limit (some key) now l b =
    let room = length-make_room now l.entries in
    let added = length-insert key (fresh window now l) (make_room now l.entries) in
    elim (Option-cases (lookup key l.entries)) [
      | inl n ↦ rw (n, take_slot) (omega arith)
      | inr (e, h) ↦ elim (Bool-cases (ltb now e.reset_at)) [
        | inr d ↦ rw (h, take_slot, d) (omega arith)
        | inl d ↦ elim (Bool-cases (leb limit e.count)) [
          | inl c ↦ rw (h, take_slot, d, c) b
          | inr c ↦
              rw (h, take_slot, d, c)
                (omega
                  (arith, length-insert_known key (record e { count = e.count + 1 }) e l.entries h))
        ]
      ]
    ]

-- A key whose window is full is refused until the window ends, and nothing changes: the answer
-- asks to wait at least a second, and no shorter than the window lasts.
pub request-refused :
    (window limit key now : ℕ) (l : Limiter) (e : Entry)
    → lookup key l.entries ≡ some e
    → now < e.reset_at
    → limit ≤ e.count
    → (seconds : ℕ) × (request window limit (some key) now l ≡ (refused seconds, l))
      × (1 ≤ seconds)
      × (e.reset_at ≤ now + seconds * 1000)
unfolding request retry_after_seconds
request-refused window limit key now l e h d c =
    (retry_after_seconds now e, ground (arith, h), omega arith, omega arith)

-- Giving back the slot of the entry that a key was just given.
finish-insert :
    (key : ℕ) (e : Entry) (es : Dict Entry) (next_id : ℕ)
    → 0 < e.count
    → lookup key
        (finish key e.id false (record { entries = insert key e es; next_id = next_id })).entries
      ≡ some (record e { count = e.count - 1 })
unfolding finish
finish-insert key e es next_id p = grind (arith, lookup-insert_self, ==_refl e.id)

-- A request that is let through and then does not count gives its slot back: the key's count is
-- what it was, and a window that was new counts nothing.
pub finish-request :
    (window limit key now : ℕ) (l : Limiter) (e : Entry)
    → (request window limit (some key) now l).0 ≡ allowed e
    → (f : Entry) × (lookup key
          (finish key e.id false (request window limit (some key) now l).1).entries
        ≡ some f)
      × (f.count ≡ elim (live key now l.entries) [ none ↦ 0 | some g ↦ g.count ])
      × (f.id ≡ e.id)
unfolding request finish take_slot
finish-request window limit key now l e h = elim (Option-cases (lookup key l.entries)) [
  | inl n ↦
      let same : fresh window now l ≡ e = ground (arith, n) in
      (
        record e { count = e.count - 1 },
        ground (
          arith,
          n,
          same,
          finish-insert key (fresh window now l) (make_room now l.entries) (l.next_id + 1)
              (omega arith),
        ),
        ground (arith, n, same),
        refl,
      )
  | inr (g, n) ↦ elim (Bool-cases (ltb now g.reset_at)) [
    | inr d ↦
        let same : fresh window now l ≡ e = ground (arith, n, d) in
        (
          record e { count = e.count - 1 },
          ground (
            arith,
            n,
            d,
            same,
            finish-insert key (fresh window now l) (make_room now l.entries) (l.next_id + 1)
                (omega arith),
          ),
          ground (arith, n, d, same),
          refl,
        )
    | inl d ↦ elim (Bool-cases (leb limit g.count)) [
      | inl c ↦ ground (arith, n, d, c)
      | inr c ↦
          let same : record g { count = g.count + 1 } ≡ e = ground (arith, n, d, c) in
          (
            record e { count = e.count - 1 },
            ground (
              arith,
              n,
              d,
              c,
              same,
              finish-insert key (record g { count = g.count + 1 }) l.entries l.next_id
                  (omega arith),
            ),
            ground (arith, n, d, same),
            refl,
          )
    ]
  ]
]
