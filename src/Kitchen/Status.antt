-- ===== src/Kitchen/Status.antt =====
-- An order's status follows its dishes, and only while the order is in the kitchen.
use zak_s_sizzling.Prelude.{
  ==_iff, Bool-cases, ℕ, ◌≡◌, refl, Bool, true, false, Option, none, some, List, [], ◌∷◌, arith,
  ◌==◌, if◌then◌else◌, All, ◌↔◌, ◌≢◌, every, any, Option-cases, inl, inr,
}
use zak_s_sizzling.Prelude.Dict.{Dict, lookup}
use zak_s_sizzling.Store.{
  KitchenTask, OrderItem, Db, Order, OrderStatus, KitchenStatus, lookup-update_where, revised,
}
use zak_s_sizzling.Kitchen.{
  is_done, is_started, is_in_kitchen, statuses_of, next_status, set_order_status, status_eq,
  move_order, sync_order_status, is_nil, follows,
}

every_done :
    (ss : List KitchenStatus)
    → (every is_done ss ≡ true) ↔ All (λ s. s ≡ KitchenStatus.completed) ss
every_done [] = (λ h. tt, λ h. refl)
every_done (s ∷ ss) = ground (arith, every_done ss)

none_started :
    (ss : List KitchenStatus)
    → (any is_started ss ≡ false) ↔ All (λ s. s ≡ KitchenStatus.pending) ss
none_started [] = (λ h. tt, λ h. refl)
none_started (s ∷ ss) = ground (arith, none_started ss)

-- The status that an order's dishes stand for: ready exactly when every dish is done, and confirmed
-- exactly when there is a dish and none is started.
pub next_status_lem :
    (ss : List KitchenStatus)
    → ss ≢ []
    → ((next_status ss ≡ OrderStatus.ready) ↔ All (λ s. s ≡ KitchenStatus.completed) ss)
      × ((next_status ss ≡ OrderStatus.confirmed) ↔ All (λ s. s ≡ KitchenStatus.pending) ss)
unfolding next_status
next_status_lem [] ne = absurd (ne refl)
next_status_lem (s ∷ ss) ne = ground (arith, every_done (s ∷ ss), none_started (s ∷ ss))

-- What an order's status says of its dishes, of which it has one at least.
pub record StandsFor (st : OrderStatus) (ss : List KitchenStatus) : Type 0 where
  pub ready : (st ≡ OrderStatus.ready) ↔ All (λ s. s ≡ KitchenStatus.completed) ss
  pub confirmed : (st ≡ OrderStatus.confirmed) ↔ All (λ s. s ≡ KitchenStatus.pending) ss
  pub preparing : st ≢ OrderStatus.ready → st ≢ OrderStatus.confirmed → st ≡ OrderStatus.preparing

pub next_status-StandsFor : (ss : List KitchenStatus) → ss ≢ [] → StandsFor (next_status ss) ss
unfolding next_status
next_status-StandsFor [] ne = absurd (ne refl)
next_status-StandsFor (s ∷ ss) ne = record {
  ready = (next_status_lem (s ∷ ss) ne).0;
  confirmed = (next_status_lem (s ∷ ss) ne).1;
  preparing = λ r c. ground (arith, r, c);
}

-- The statuses of an order's dishes, in the order of the items: those of its items that have a task.
pub data Dishes (order_id : ℕ) (tasks : Dict KitchenTask)
    : Dict OrderItem → List KitchenStatus → Type 0 where
  no_items : Dishes order_id tasks [] []
  a_dish :
      (id : ℕ)
      → (i : OrderItem) → (t : KitchenTask) → (items : Dict OrderItem) → (ss : List KitchenStatus)
      → i.order_id ≡ order_id
      → lookup id tasks ≡ some t
      → Dishes order_id tasks items ss
      → Dishes order_id tasks ((id, i) ∷ items) (t.status ∷ ss)
  no_task :
      (id : ℕ)
      → (i : OrderItem) → (items : Dict OrderItem) → (ss : List KitchenStatus)
      → lookup id tasks ≡ none
      → Dishes order_id tasks items ss
      → Dishes order_id tasks ((id, i) ∷ items) ss
  of_another :
      (id : ℕ)
      → (i : OrderItem) → (items : Dict OrderItem) → (ss : List KitchenStatus)
      → i.order_id ≢ order_id
      → Dishes order_id tasks items ss
      → Dishes order_id tasks ((id, i) ∷ items) ss

pub statuses_of-Dishes :
    (order_id : ℕ) (items : Dict OrderItem) (tasks : Dict KitchenTask)
    → Dishes order_id tasks items (statuses_of order_id items tasks)
unfolding statuses_of
statuses_of-Dishes order_id [] tasks = no_items
statuses_of-Dishes order_id ((id, i) ∷ items) tasks =
    let ss = statuses_of order_id items tasks in
    let rest = statuses_of-Dishes order_id items tasks in
    elim (Bool-cases (i.order_id == order_id)) [
      | inr h ↦
          rw h (of_another id i items ss (λ e. ground (arith, h, ==_iff i.order_id order_id)) rest)
      | inl h ↦ elim (Option-cases (lookup id tasks)) [
        | inl n ↦ rw (h, n) (no_task id i items ss n rest)
        | inr (t, l) ↦
            rw (h, l)
              (a_dish id i t items ss (ground (arith, h, ==_iff i.order_id order_id)) l rest)
      ]
    ]

-- What the dishes make of an order's row.
abbrev pub followed : List KitchenStatus → Order → Order
followed [] o = o
followed (s ∷ ss) o =
    if is_in_kitchen o.status then set_order_status (next_status (s ∷ ss)) o else o

abbrev pub followed_row : List KitchenStatus → Option Order → Option Order
followed_row ss none = none
followed_row ss (some o) = some (followed ss o)

status_eq-true : (a b : OrderStatus) → status_eq a b ≡ true → a ≡ b
status_eq-true a b h = ground arith

set_order_status_self :
    (s : OrderStatus) (o : Order) → status_eq o.status s ≡ true → set_order_status s o ≡ o
set_order_status_self s o h = rw (← status_eq-true o.status s h)

lookup-move_order :
    (order_id id : ℕ) (next : OrderStatus) (db : Db)
    → lookup id (move_order order_id next db).orders ≡ (
        if order_id == id
        then revised (λ o. is_in_kitchen o.status) (set_order_status next) (lookup id db.orders)
        else lookup id db.orders)
unfolding move_order
lookup-move_order order_id id next db = elim (Option-cases (lookup id db.orders)) [
  | inl e ↦
      ground
        (arith, e, lookup-update_where order_id id (follows next) (set_order_status next) db.orders)
  | inr (o, e) ↦ ground (
    arith,
    e,
    lookup-update_where order_id id (follows next) (set_order_status next) db.orders,
    set_order_status_self next o,
  )
]

-- Syncing gives an order in the kitchen the status of its dishes, and leaves alone an order that
-- has none, one that is unpaid, handed over or cancelled, and every other order.
pub lookup-sync_order_status :
    (order_id id : ℕ) (db : Db)
    → lookup id (sync_order_status order_id db).1.orders ≡ (
        if order_id == id
        then followed_row
            (statuses_of order_id db.order_items db.kitchen_tasks)
            (lookup id db.orders)
        else lookup id db.orders)
unfolding sync_order_status
lookup-sync_order_status order_id id db = go (statuses_of order_id db.order_items db.kitchen_tasks)
  where
    go :
        (ss : List KitchenStatus)
        → lookup id (if is_nil ss then db else move_order order_id (next_status ss) db).orders
          ≡ (if order_id == id then followed_row ss (lookup id db.orders) else lookup id db.orders)
    go [] = ground arith
    go (s ∷ ss) = ground (arith, lookup-move_order order_id id (next_status (s ∷ ss)) db)

-- An order that was paid for and not cancelled, by its status.
abbrev pub sold : OrderStatus → Bool
sold OrderStatus.pending = false
sold OrderStatus.cancelled = false
sold _ = true

abbrev pub sold_row : Option Order → Bool
sold_row none = false
sold_row (some o) = sold o.status

sold-followed : (ss : List KitchenStatus) (o : Order) → sold (followed ss o).status ≡ sold o.status
unfolding next_status
sold-followed [] o = refl
sold-followed (s ∷ ss) o = ground arith

-- Syncing moves no order out of the sold ones or into them.
pub sync_order_status_sold :
    (order_id id : ℕ) (db : Db)
    → sold_row (lookup id (sync_order_status order_id db).1.orders) ≡ sold_row (lookup id db.orders)
sync_order_status_sold order_id id db =
    let ss = statuses_of order_id db.order_items db.kitchen_tasks in
    elim (Option-cases (lookup id db.orders)) [
      | inl e ↦ ground (arith, e, lookup-sync_order_status order_id id db)
      | inr (o, e) ↦ ground (arith, e, lookup-sync_order_status order_id id db, sold-followed ss o)
    ]
