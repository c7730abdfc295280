-- ===== src/Orders/History.antt =====
-- The transaction history: `orderNumberSearch`, `toTransactionDTO` and the filters and sums of
-- `listTransactions` of apps/api/src/modules/orders/service.ts. The days of the query are given
-- as times, and the texts are ASCII.
use zak_s_sizzling.Prelude.{
  ℕ, zero, suc, ◌+◌, ◌-◌, ◌*◌, ◌/◌, min, max, Bool, true, false, ◌&&◌, ◌||◌, Option, none, some,
  List, [], ◌∷◌, leb, ltb, if◌then◌else◌, length, take, map, reverse,
}
use zak_s_sizzling.Prelude.Text.{Text, text, starts_with, includes}
use zak_s_sizzling.Prelude.Dict.{Dict, lookup}
use zak_s_sizzling.Store.{Db, Order, OrderItem, OrderStatus, Payment, PaymentMethod, KitchenTask}
use zak_s_sizzling.Stock.Deduct.{items_of}
use zak_s_sizzling.Orders.Dto.{OrderDto, to_order_dto}
use zak_s_sizzling.Orders.Board.{rows_where}
use zak_s_sizzling.Kitchen.{status_eq}
use zak_s_sizzling.Payments.Confirm.{paid_row, is_open}

abbrev is_between : ℕ → ℕ → ℕ → Bool
is_between a b c = leb a c && leb c b

abbrev upper : ℕ → ℕ
upper c = if is_between b'a' b'z' c then c - 32 else c

abbrev is_code_letter : ℕ → Bool
is_code_letter c = is_between b'A' b'Z' c || is_between b'0' b'9' c

-- `toUpperCase().replace(/[^A-Z0-9]/g, "")`
pub code_letters : Text → Text
code_letters [] = []
code_letters (c ∷ cs) =
    if is_code_letter (upper c) then upper c ∷ code_letters cs else code_letters cs

abbrev drop_two : Text → Text
drop_two (a ∷ b ∷ t) = t
drop_two _ = []

abbrev text_or_null : Text → Option Text
text_or_null [] = none
text_or_null (c ∷ cs) = some (c ∷ cs)

pub order_number_search : Option Text → Option Text
unfolding code_letters
order_number_search none = none
order_number_search (some q) =
    let letters = code_letters q in
    text_or_null (if starts_with letters (text "ZK") then drop_two letters else letters)

pub data PaidFilter : Type 0 where
  paid unpaid : PaidFilter

pub record TransactionQuery : Type 0 where
  pub from : ℕ
  pub until : ℕ
  pub status : Option OrderStatus
  pub method : Option PaymentMethod
  pub paid : Option PaidFilter
  pub code : Option Text
  pub page : ℕ
  pub page_size : ℕ

abbrev method_eq : PaymentMethod → PaymentMethod → Bool
method_eq PaymentMethod.gcash PaymentMethod.gcash = true
method_eq PaymentMethod.maya PaymentMethod.maya = true
method_eq PaymentMethod.counter PaymentMethod.counter = true
method_eq PaymentMethod.qrph PaymentMethod.qrph = true
method_eq _ _ = false

abbrev has_status : Option OrderStatus → Order → Bool
has_status none o = true
has_status (some s) o = status_eq o.status s

abbrev has_method : Option PaymentMethod → Option Payment → Bool
has_method none p = true
has_method (some m) none = false
has_method (some m) (some p) = method_eq p.method m

abbrev row_is_open : Option Payment → Bool
row_is_open none = true
row_is_open (some p) = is_open p.status

abbrev has_paid : Option PaidFilter → Option Payment → Bool
has_paid none p = true
has_paid (some PaidFilter.paid) p = paid_row p
has_paid (some PaidFilter.unpaid) p = row_is_open p

abbrev has_code : Option Text → Order → Bool
has_code none o = true
has_code (some c) o = includes o.order_number c

-- The query's `where`.
pub matches : TransactionQuery → Db → ℕ → Order → Bool
matches q db id o =
    (leb q.from o.created_at && ltb o.created_at q.until)
    && (has_status q.status o
        && (has_code q.code o
            && (has_method q.method (lookup id db.payments)
                && has_paid q.paid (lookup id db.payments))))

-- `PAID_STATUSES`
abbrev pub is_sale : OrderStatus → Bool
is_sale OrderStatus.pending = false
is_sale OrderStatus.cancelled = false
is_sale _ = true

pub counts_as_sale : TransactionQuery → Db → ℕ → Order → Bool
counts_as_sale q db id o =
    matches q db id o && (is_sale o.status && paid_row (lookup id db.payments))

pub total_sales : Dict Order → ℕ
total_sales [] = 0
total_sales ((id, o) ∷ os) = o.total_amount + total_sales os

-- The tasks of an order's items.
pub tasks_of : Dict OrderItem → Dict KitchenTask → List KitchenTask
tasks_of [] ts = []
tasks_of ((id, i) ∷ is) ts = elim (lookup id ts) [
  | none ↦ tasks_of is ts
  | some t ↦ t ∷ tasks_of is ts
]

abbrev earlier : Option ℕ → Option ℕ → Option ℕ
earlier none t = t
earlier (some a) none = some a
earlier (some a) (some b) = some (min a b)

abbrev later : Option ℕ → Option ℕ → Option ℕ
later none t = t
later (some a) none = some a
later (some a) (some b) = some (max a b)

pub first_start : List KitchenTask → Option ℕ
first_start [] = none
first_start (t ∷ ts) = earlier t.started_at (first_start ts)

pub last_finish : List KitchenTask → Option ℕ
last_finish [] = none
last_finish (t ∷ ts) = later t.completed_at (last_finish ts)

pub record Timeline : Type 0 where
  pub placed_at : ℕ
  pub paid_at : Option ℕ
  pub refunded_at : Option ℕ
  pub preparing_at : Option ℕ
  pub ready_at : Option ℕ
  pub handed_over_at : Option ℕ
  pub cancelled_at : Option ℕ

abbrev reached_ready : OrderStatus → Bool
reached_ready OrderStatus.ready = true
reached_ready OrderStatus.completed = true
reached_ready _ = false

abbrev or_updated : ℕ → Option ℕ → Option ℕ
or_updated updated none = some updated
or_updated updated (some t) = some t

abbrev paid_time : Option Payment → Option ℕ
paid_time none = none
paid_time (some p) = p.paid_at

abbrev refund_time : Option Payment → Option ℕ
refund_time none = none
refund_time (some p) = p.refunded_at

-- When an order reached each step; `updated` is its row's last change.
pub timeline : ℕ → Db → ℕ → Order → Timeline
unfolding tasks_of first_start last_finish
timeline updated db id o =
    let ts = tasks_of (items_of id db.order_items) db.kitchen_tasks in
    record {
      placed_at = o.created_at;
      paid_at = paid_time (lookup id db.payments);
      refunded_at = refund_time (lookup id db.payments);
      preparing_at = first_start ts;
      ready_at = if reached_ready o.status then last_finish ts else none;
      handed_over_at =
          if status_eq o.status OrderStatus.completed
          then or_updated updated o.handed_over_at
          else none;
      cancelled_at =
          if status_eq o.status OrderStatus.cancelled
          then or_updated updated o.cancelled_at
          else none;
    }

pub record TransactionPage : Type 0 where
  pub orders : List (OrderDto × Timeline)
  pub total : ℕ
  pub paid_count : ℕ
  pub sales : ℕ
  pub average_order_value : Option ℕ

pub drop_rows : ℕ → Dict Order → Dict Order
drop_rows zero rs = rs
drop_rows (suc n) [] = []
drop_rows (suc n) (r ∷ rs) = drop_rows n rs

abbrev transaction_dto : (ℕ → ℕ) → Db → ℕ × Order → OrderDto × Timeline
transaction_dto updated db r = (to_order_dto db r.0 r.1, timeline (updated r.0) db r.0 r.1)

-- Newest first, a page at a time; the sums cover every order that matches. The average is rounded
-- to the nearest centavo.
pub list_transactions : TransactionQuery → (ℕ → ℕ) → Db → TransactionPage
unfolding matches counts_as_sale total_sales timeline drop_rows
list_transactions q updated db =
    let rows = rows_where (matches q db) db.orders in
    let sold = rows_where (counts_as_sale q db) db.orders in
    let sales = total_sales sold in
    record {
      orders =
          map (transaction_dto updated db)
            (take q.page_size (drop_rows ((q.page - 1) * q.page_size) (reverse rows)));
      total = length rows;
      paid_count = length sold;
      sales = sales;
      average_order_value =
          if ltb 0 (length sold)
          then some ((2 * sales + length sold) / (2 * length sold))
          else none;
    }
