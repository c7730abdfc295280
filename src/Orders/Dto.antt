-- ===== src/Orders/Dto.antt =====
-- What the screens get of an order: `toOrderDTO`, `getOrderById` and `getOrderOwnerSessionId` of
-- apps/api/src/modules/orders/service.ts. Times are milliseconds, amounts are centavos, and a
-- product's icon is left out.
use zak_s_sizzling.Prelude.{ℕ, Bool, Option, none, some, List, [], ◌∷◌}
use zak_s_sizzling.Prelude.Text.{Text}
use zak_s_sizzling.Prelude.Dict.{Dict, lookup}
use zak_s_sizzling.Store.{
  Db, Order, OrderItem, OrderStatus, OrderType, Product, Payment, PaymentMethod, PaymentStatus,
}
use zak_s_sizzling.Stock.Deduct.{items_of}

pub record OrderItemDto : Type 0 where
  pub id : ℕ
  pub product_id : ℕ
  pub product_name : Text
  pub qty : ℕ
  pub unit_price : ℕ
  pub subtotal : ℕ
  pub special_instructions : Option Text

pub record PaymentDto : Type 0 where
  pub method : PaymentMethod
  pub status : PaymentStatus
  pub amount : ℕ
  pub reference : Option Text
  pub paid_at : Option ℕ

pub record OrderDto : Type 0 where
  pub id : ℕ
  pub order_number : Text
  pub status : OrderStatus
  pub order_type : OrderType
  pub total_amount : ℕ
  pub stock_issue : Bool
  pub stock_issue_note : Option Text
  pub cancel_reason : Option Text
  pub estimated_prep_minutes : Option ℕ
  pub estimated_ready_at : Option ℕ
  pub created_at : ℕ
  pub items : List OrderItemDto
  pub payment : Option PaymentDto

pub item_dto : ℕ → OrderItem → Product → OrderItemDto
item_dto id i p = record {
  id = id;
  product_id = i.product_id;
  product_name = p.name;
  qty = i.qty;
  unit_price = i.unit_price;
  subtotal = i.subtotal;
  special_instructions = i.special_instructions;
}

-- The items with their products, as the query joins them.
unfoldable pub item_dtos : Dict Product → Dict OrderItem → List OrderItemDto
unfolding item_dto
item_dtos ps [] = []
item_dtos ps ((id, i) ∷ is) = elim (lookup i.product_id ps) [
  | none ↦ item_dtos ps is
  | some p ↦ item_dto id i p ∷ item_dtos ps is
]

unfoldable pub payment_dto : Option Payment → Option PaymentDto
payment_dto none = none
payment_dto (some p) = some (record {
  method = p.method;
  status = p.status;
  amount = p.amount;
  reference = p.reference;
  paid_at = p.paid_at;
})

unfoldable pub to_order_dto : Db → ℕ → Order → OrderDto
unfolding item_dtos payment_dto
to_order_dto db id o = record {
  id = id;
  order_number = o.order_number;
  status = o.status;
  order_type = o.order_type;
  total_amount = o.total_amount;
  stock_issue = o.stock_issue;
  stock_issue_note = o.stock_issue_note;
  cancel_reason = o.cancel_reason;
  estimated_prep_minutes = o.estimated_prep_minutes;
  estimated_ready_at = o.estimated_ready_at;
  created_at = o.created_at;
  items = item_dtos db.products (items_of id db.order_items);
  payment = payment_dto (lookup id db.payments);
}

unfoldable pub get_order_by_id : ℕ → Db → Option OrderDto
unfolding to_order_dto
get_order_by_id id db = elim (lookup id db.orders) [
  | none ↦ none
  | some o ↦ some (to_order_dto db id o)
]

-- `undefined` for a missing order, `null` for an order without a session.
pub get_order_owner_session_id : ℕ → Db → Option (Option Text)
get_order_owner_session_id id db = elim (lookup id db.orders) [
  | none ↦ none
  | some o ↦ some o.kiosk_session_id
]
