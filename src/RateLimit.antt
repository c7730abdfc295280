-- ===== src/RateLimit.antt =====
-- The fixed-window rate limiter (apps/api/src/middleware/rateLimit.ts). A request's key is a
-- number, and `null` where the limit is skipped. A window's entry has a number of its own, for
-- the identity of the source's object. The limit is read on every request, so it is an argument.
pub mod Bounds
pub mod Window
pub mod Limits
use zak_s_sizzling.Prelude.{
  ℕ, suc, ◌+◌, ◌-◌, ◌*◌, ◌/◌, max, Bool, true, false, not, ◌&&◌, Option, none, some, List, [], ◌∷◌,
  ◌++◌, ◌==◌, ltb, leb, if◌then◌else◌, length, keep,
}
use zak_s_sizzling.Prelude.Text.{Text, text, decimal}
use zak_s_sizzling.Prelude.Dict.{Dict, lookup, insert}

pub record Entry : Type 0 where
  pub id : ℕ
  pub count : ℕ
  pub reset_at : ℕ

-- The map keeps insertion order; `next_id` numbers the entries.
pub record Limiter : Type 0 where
  pub entries : Dict Entry
  pub next_id : ℕ

abbrev pub max_keys : ℕ
max_keys = 50000

pub sweep_expired : ℕ → Dict Entry → Dict Entry
sweep_expired now [] = []
sweep_expired now ((k, e) ∷ es) =
    let rest = sweep_expired now es in if leb e.reset_at now then rest else (k, e) ∷ rest

abbrev pub live_entry : ℕ → Option Entry → Option Entry
live_entry now none = none
live_entry now (some e) = if ltb now e.reset_at then some e else none

-- `live(key, now)`
abbrev pub live : ℕ → ℕ → Dict Entry → Option Entry
live key now es = live_entry now (lookup key es)

-- The oldest keys go until there is room for one more.
pub drop_oldest : ℕ → Dict Entry → Dict Entry
drop_oldest m [] = []
drop_oldest m (e ∷ es) = if ltb (length (e ∷ es)) m then e ∷ es else drop_oldest m es

pub make_room : ℕ → Dict Entry → Dict Entry
unfolding sweep_expired drop_oldest
make_room now es =
    if leb max_keys (length es) then drop_oldest max_keys (sweep_expired now es) else es

abbrev counted : Entry → Entry
counted e = record e { count = e.count + 1 }

-- `take(key, now)`: the entry that holds the slot, and the state after it.
unfoldable pub take_slot : ℕ → ℕ → ℕ → Limiter → Entry × Limiter
unfolding make_room
take_slot window key now l = elim (live key now l.entries) [
  | some e ↦ (counted e, record l { entries = insert key (counted e) l.entries })
  | none ↦
      let e : Entry = record { id = l.next_id; count = 1; reset_at = now + window } in
      (e, record { entries = insert key e (make_room now l.entries); next_id = l.next_id + 1 })
]

pub data Verdict : Type 0 where
  skipped : Verdict
  allowed : Entry → Verdict
  refused : (retry_after : ℕ) → Verdict

-- `Math.max(1, Math.ceil((resetAt - now) / 1000))`
pub retry_after_seconds : ℕ → Entry → ℕ
retry_after_seconds now e = max 1 ((e.reset_at - now + 999) / 1000)

abbrev is_full : ℕ → Option Entry → Bool
is_full limit none = false
is_full limit (some e) = leb limit e.count

abbrev refusal : ℕ → Option Entry → ℕ
refusal now none = 1
refusal now (some e) = retry_after_seconds now e

-- A request arrives.
unfoldable pub request : ℕ → ℕ → Option ℕ → ℕ → Limiter → Verdict × Limiter
unfolding take_slot retry_after_seconds
request window limit none now l = (skipped, l)
request window limit (some key) now l =
    let (e, l') = take_slot window key now l in
    if is_full limit (live key now l.entries)
    then (refused (refusal now (live key now l.entries)), l)
    else (allowed e, l')

-- `entries.get(key) === entry`, and a slot to give back.
abbrev holds_slot : ℕ → Option Entry → Bool
holds_slot id none = false
holds_slot id (some e) = e.id == id && ltb 0 e.count

abbrev less : Entry → Entry
less e = record e { count = e.count - 1 }

-- The response of an allowed request is finished; a response that counts keeps its slot.
unfoldable pub finish : ℕ → ℕ → Bool → Limiter → Limiter
finish key id counts l = elim (lookup key l.entries) [
  | none ↦ l
  | some e ↦
      if not counts && holds_slot id (some e)
      then record l { entries = insert key (less e) l.entries }
      else l
]

pub remove_key : ℕ → Dict Entry → Dict Entry
remove_key key [] = []
remove_key key ((k, e) ∷ es) = if k == key then es else (k, e) ∷ remove_key key es

-- `reset`: the key is forgotten.
pub reset : Option ℕ → Limiter → Limiter
unfolding remove_key
reset none l = l
reset (some key) l = record l { entries = remove_key key l.entries }

-- `minutes(n)` and `waitText(seconds)`
pub minutes : ℕ → Text
minutes n = decimal n ++ (text " minute" ++ (if n == 1 then [] else text "s"))

pub wait_text : ℕ → Text
unfolding minutes
wait_text s =
    if leb s 60
    then decimal s ++ (text " second" ++ (if s == 1 then [] else text "s"))
    else minutes ((s + 59) / 60)
