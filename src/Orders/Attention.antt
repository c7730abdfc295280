-- ===== src/Orders/Attention.antt =====
-- Settling an order that needed attention: `markAttentionSortedOut` of
-- apps/api/src/modules/orders/service.ts.
pub mod Settled
use zak_s_sizzling.Prelude.{
  ℕ, ◌≡◌, refl, Bool, true, false, not, ◌&&◌, ◌||◌, Option, none, some, List, [], ◌∷◌, ◌++◌, arith,
  ◌==◌, if◌then◌else◌, Option-cases, Bool-cases, inl, inr, is_some,
}
use zak_s_sizzling.Prelude.Text.{Text, text, text_eq}
use zak_s_sizzling.Prelude.Dict.{Dict, lookup, insert, lookup-insert}
use zak_s_sizzling.Store.{
  Db, Order, OrderStatus, Payment, PaymentStatus, orders_changed, Error, http_error, Result,
  Result-cases, ok, err, Proc, pure, read, emit, or_throw, throw_if, transaction, settle, continue,
  update_where, ◌>>=◌, ◌>>◌,
}
use zak_s_sizzling.Orders.Dto.{OrderDto, get_order_by_id}
use zak_s_sizzling.Kitchen.{order_not_found}
use zak_s_sizzling.Payments.Confirm.{is_paid, paid_row, is_cancelled}

pub data Resolution : Type 0 where
  refunded placed_again : Resolution

pub no_attention_error : Order → Error
no_attention_error o = http_error 409 (o.order_number ++ text " doesn't need attention any more")

pub say_refunded_error : Order → Error
say_refunded_error o =
    http_error 400 (text "Say whether " ++ (o.order_number ++ text " was refunded"))

pub not_placed_again_error : Order → Error
not_placed_again_error o =
    http_error 409 (o.order_number ++ text " can't be marked as placed again")

pub new_note_error : Order → Error
new_note_error o =
    http_error 409 (o.order_number ++ text " has a new note. Read it, then try again")

abbrev pub money_to_settle : Order → Option Payment → Bool
money_to_settle o p = is_cancelled o.status && paid_row p

abbrev pub is_placed_again : Option Resolution → Bool
is_placed_again (some Resolution.placed_again) = true
is_placed_again _ = false

abbrev pub is_refunded : Option Resolution → Bool
is_refunded (some Resolution.refunded) = true
is_refunded _ = false

-- `if (order.cancelReason)`: an empty text is not a reason.
abbrev pub has_reason : Option Text → Bool
has_reason none = false
has_reason (some []) = false
has_reason (some (c ∷ cs)) = true

abbrev pub same_note : Option Text → Option Text → Bool
same_note none none = true
same_note (some a) (some b) = text_eq a b
same_note _ _ = false

-- A missing note prints as JavaScript prints `null`.
abbrev note_text : Option Text → Text
note_text none = text "null"
note_text (some t) = t

pub placed_again_note : Option Text → Text
placed_again_note seen = note_text seen ++ text "\nPlaced again instead of refunded."

abbrev pub has_note : Option Text → Order → Bool
has_note seen o = o.stock_issue && same_note o.stock_issue_note seen

unfoldable pub sorted_out : Option Text → Bool → Order → Order
unfolding placed_again_note
sorted_out seen again o = record o {
  stock_issue = Bool.false;
  stock_issue_note = if again then some (placed_again_note seen) else o.stock_issue_note;
}

unfoldable pub clear_note : ℕ → Option Text → Option Resolution → Order → Proc (Unit {0})
unfolding sorted_out new_note_error
clear_note id seen resolution o db =
    let (orders, done) =
      update_where id (has_note seen) (sorted_out seen (is_placed_again resolution)) db.orders in
    (if done then ok tt else err (new_note_error o), record db { orders = orders })

abbrev pub refund : ℕ → Payment → Payment
refund now p = record p { status = PaymentStatus.refunded; refunded_at = some now }

unfoldable pub record_refund : ℕ → ℕ → Bool → Proc (Unit {0})
record_refund now id due db = (
  ok tt,
  if due
      then record db {
        payments = (update_where id (λ (p : Payment). is_paid p.status) (refund now) db.payments).0;
      }
      else db,
)

unfoldable pub check_resolution : Order → Option Payment → Option Resolution → Result (Unit {0})
unfolding no_attention_error say_refunded_error not_placed_again_error
check_resolution o payment resolution =
    if not o.stock_issue
    then err (no_attention_error o)
    else if money_to_settle o payment && not (is_some resolution)
    then err (say_refunded_error o)
    else if is_placed_again resolution
        && (not (money_to_settle o payment) || has_reason o.cancel_reason)
    then err (not_placed_again_error o)
    else ok tt

unfoldable pub sort_out : ℕ → ℕ → Option Text → Option Resolution → Proc (Unit {0})
unfolding check_resolution clear_note record_refund
sort_out now id seen resolution = do
  order ← (λ db. or_throw (lookup id db.orders) order_not_found db)
  payment ← read (λ db. lookup id db.payments)
  (λ db. (check_resolution order payment resolution, db))
  clear_note id seen resolution order
  record_refund now id (money_to_settle order payment && is_refunded resolution)

unfoldable pub mark_attention_sorted_out :
    ℕ → ℕ → Option Text → Option Resolution → Proc (Option OrderDto)
unfolding sort_out
mark_attention_sorted_out now id seen resolution = do
  transaction (sort_out now id seen resolution)
  emit orders_changed
  read (get_order_by_id id)
