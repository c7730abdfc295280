-- ===== src/Tests/Sample.antt =====
-- A small restaurant: a dish that is counted, a dish that is made from rice, and an unpaid order
-- of two of each.
use zak_s_sizzling.Prelude.{Bool, none, some, [], ◌∷◌}
use zak_s_sizzling.Prelude.Text.{text}
use zak_s_sizzling.Store.{
  Db, Product, RawMaterial, Order, OrderItem, Payment, KitchenTask, KitchenStatus, StockTracking,
  MaterialUnit, OrderStatus, OrderType, PaymentMethod, PaymentStatus,
}
use zak_s_sizzling.Payments.Confirm.{Snapshot}

abbrev pub sisig : Product
sisig = record {
  name = text "Sisig";
  price = 15000;
  tracking = StockTracking.unit;
  recipe_items = [];
  prep_minutes = 12;
  is_available = Bool.true;
  barcode = none;
  category_id = 1;
  description = none;
  icon = none;
  cost = none;
  ingredients = [];
  allergens = [];
  nutrition = record { calories = none; protein = none; carbs = none; sugar = none };
}

abbrev pub tapsilog : Product
tapsilog = record {
  name = text "Tapsilog";
  price = 9000;
  tracking = StockTracking.recipe;
  recipe_items = record { raw_material_id = 1; qty_per_serving = 200 } ∷ [];
  prep_minutes = 10;
  is_available = Bool.true;
  barcode = none;
  category_id = 1;
  description = none;
  icon = none;
  cost = none;
  ingredients = [];
  allergens = [];
  nutrition = record { calories = none; protein = none; carbs = none; sugar = none };
}

abbrev pub rice : RawMaterial
rice = record {
  name = text "Rice";
  unit = MaterialUnit.g;
  stock_qty = 2000;
  min_stock_threshold = 500;
  cost_per_unit = none;
  is_active = Bool.true;
  food = record {
    fdc_id = none;
    fdc_description = none;
    kcal_per_100g = none;
    protein_per_100g = none;
    carbs_per_100g = none;
    sugar_per_100g = none;
  };
  grams_per_unit = none;
}

abbrev pub order_7 : Order
order_7 = record {
  order_number = text "ZK-A";
  customer_name = none;
  kiosk_session_id = none;
  status = OrderStatus.pending;
  order_type = OrderType.dine_in;
  total_amount = 480;
  stock_issue = Bool.false;
  stock_issue_note = none;
  estimated_prep_minutes = some 15;
  estimated_ready_at = none;
  handed_over_at = none;
  cancelled_at = none;
  cancel_reason = none;
  created_at = 5;
}

abbrev pub item_70 : OrderItem
item_70 = record {
  order_id = 7;
  product_id = 1;
  qty = 2;
  unit_price = 150;
  subtotal = 300;
  special_instructions = none;
}

abbrev pub item_71 : OrderItem
item_71 = record {
  order_id = 7;
  product_id = 2;
  qty = 2;
  unit_price = 90;
  subtotal = 180;
  special_instructions = none;
}

abbrev pub payment_7 : Payment
payment_7 = record {
  method = PaymentMethod.qrph;
  status = PaymentStatus.pending;
  amount = 480;
  reference = some (text "pi");
  paid_at = none;
  refunded_at = none;
}

abbrev pub kiosk : Db
kiosk = record {
  categories =
      (1, record { name = text "Meals"; icon = none; sort_order = 1; is_new = Bool.false })
      ∷ (2, record { name = text "Drinks"; icon = none; sort_order = 2; is_new = Bool.false })
      ∷ [];
  products = (1, sisig) ∷ (2, tapsilog) ∷ [];
  images = [];
  inventory = (1, record { stock_qty = 10; min_stock_threshold = 2 }) ∷ [];
  raw_materials = (1, rice) ∷ [];
  orders = (7, order_7) ∷ [];
  order_items = (70, item_70) ∷ (71, item_71) ∷ [];
  payments = (7, payment_7) ∷ [];
  kitchen_tasks = [];
  movements = [];
  stock_adjustments = [];
  events = [];
}

-- What a handler read before its transaction.
abbrev pub read_7 : Snapshot
read_7 = record { id = 7; order = order_7; payment = some payment_7 }

abbrev pub task_of : KitchenStatus → KitchenTask
task_of s = record { status = s; started_at = none; completed_at = none }

-- The order is in the kitchen: its first dish is started, its second is not.
abbrev pub cooking : OrderStatus → Db
cooking status = record kiosk {
  orders = (7, record order_7 { status = status }) ∷ [];
  payments = (7, record payment_7 { status = PaymentStatus.paid; paid_at = some 9 }) ∷ [];
  kitchen_tasks =
      (70, task_of KitchenStatus.in_progress) ∷ (71, task_of KitchenStatus.pending) ∷ [];
}
