-- ===== src/Orders/Board.antt =====
-- The status board and the staff's list: `getOrderBoard` and `listOrders` of
-- apps/api/src/modules/orders/service.ts. A table is in the order of creation, and `updated` gives
-- the time of a row's last change, which no other part reads.
use zak_s_sizzling.Prelude.{
  ℕ, ◌+◌, ◌≤◌, ◌≡◌, refl, Bool, true, false, not, ◌&&◌, ◌||◌, List, [], ◌∷◌, arith, leb, ltb,
  if◌then◌else◌, length, take, map, reverse, length-take-le,
}
use zak_s_sizzling.Prelude.Text.{Text}
use zak_s_sizzling.Prelude.Dict.{Dict, lookup}
use zak_s_sizzling.Store.{Db, Order, OrderStatus}
use zak_s_sizzling.Orders.Dto.{OrderDto, to_order_dto}
use zak_s_sizzling.Kitchen.Display.{board_window_ms}
use zak_s_sizzling.Payments.Confirm.{paid_row, is_cancelled}

abbrev pub board_limit : ℕ
board_limit = 30

abbrev pub is_being_prepared : OrderStatus → Bool
is_being_prepared OrderStatus.confirmed = true
is_being_prepared OrderStatus.preparing = true
is_being_prepared _ = false

abbrev pub is_ready : OrderStatus → Bool
is_ready OrderStatus.ready = true
is_ready _ = false

abbrev pub is_recent : ℕ → Order → Bool
is_recent now o = leb now (o.created_at + board_window_ms)

-- The rows that a query's `where` keeps.
pub rows_where : (ℕ → Order → Bool) → Dict Order → Dict Order
rows_where p [] = []
rows_where p ((id, o) ∷ os) = if p id o then (id, o) ∷ rows_where p os else rows_where p os

abbrev pub number_of : ℕ × Order → Text
number_of r = r.1.order_number

-- `orderBy: { updatedAt: "desc" }`: an insertion sort that keeps equal rows in place.
pub insert_newest : (ℕ → ℕ) → ℕ × Order → Dict Order → Dict Order
insert_newest updated r [] = r ∷ []
insert_newest updated r (q ∷ qs) =
    let rest = insert_newest updated r qs in
    if ltb (updated r.0) (updated q.0) then q ∷ rest else r ∷ q ∷ qs

pub newest_first : (ℕ → ℕ) → Dict Order → Dict Order
unfolding insert_newest
newest_first updated [] = []
newest_first updated (r ∷ rs) = insert_newest updated r (newest_first updated rs)

pub record OrderBoard : Type 0 where
  pub preparing : List Text
  pub ready : List Text

pub get_order_board : ℕ → (ℕ → ℕ) → Db → OrderBoard
unfolding rows_where newest_first
get_order_board now updated db = record {
  preparing = map number_of (
      take board_limit
        (rows_where (λ id o. is_being_prepared o.status && is_recent now o) db.orders));
  ready = map number_of (
      take board_limit (
        newest_first updated
          (rows_where (λ id o. is_ready o.status && is_recent now o) db.orders)));
}

-- What staff still have to act on: an order that is not cancelled and not paid, or one with a note.
pub needs_staff : Db → ℕ → Order → Bool
needs_staff db id o =
    (not (is_cancelled o.status) && not (paid_row (lookup id db.payments))) || o.stock_issue

abbrev dto_of : Db → ℕ × Order → OrderDto
dto_of db r = to_order_dto db r.0 r.1

pub list_orders : Bool → Db → List OrderDto
unfolding needs_staff rows_where
list_orders unpaid_counter_only db = map (dto_of db) (
    take 50
      (reverse (if unpaid_counter_only then rows_where (needs_staff db) db.orders else db.orders)))

length-map_number : (rs : Dict Order) → length (map number_of rs) ≡ length rs
length-map_number [] = refl
length-map_number (r ∷ rs) = ground (arith, length-map_number rs)

-- However many orders are in the kitchen, the board shows at most 30 in each column.
pub length-get_order_board :
    (now : ℕ) (updated : ℕ → ℕ) (db : Db)
    → (length (get_order_board now updated db).preparing ≤ board_limit)
      × (length (get_order_board now updated db).ready ≤ board_limit)
unfolding get_order_board
length-get_order_board now updated db =
    let preparing = rows_where (λ id o. is_being_prepared o.status && is_recent now o) db.orders in
    let ready =
      newest_first updated (rows_where (λ id o. is_ready o.status && is_recent now o) db.orders) in
    (
      omega (
        arith,
        length-map_number (take board_limit preparing),
        length-take-le board_limit preparing,
      ),
      omega (arith, length-map_number (take board_limit ready), length-take-le board_limit ready),
    )
