-- ===== src/Store/Data.antt =====
-- The rows of the tables, the errors that a service throws and the events that it sends.
use zak_s_sizzling.Prelude.{ℕ, Bool, Option, List}
use zak_s_sizzling.Prelude.Int.{ℤ}
use zak_s_sizzling.Prelude.Text.{Text}
use zak_s_sizzling.Prelude.Dict.{Dict}

pub data UserRole : Type 0 where
  admin staff customer : UserRole

pub data OrderStatus : Type 0 where
  pending confirmed preparing ready completed cancelled : OrderStatus

pub data OrderType : Type 0 where
  dine_in take_out : OrderType

pub data PaymentMethod : Type 0 where
  gcash maya counter qrph : PaymentMethod

pub data PaymentStatus : Type 0 where
  pending paid failed refunded : PaymentStatus

pub data KitchenStatus : Type 0 where
  pending in_progress completed : KitchenStatus

pub data AdjustmentReason : Type 0 where
  restock return damaged spoilage correction other : AdjustmentReason

pub data StockTracking : Type 0 where
  unit recipe : StockTracking

pub data MaterialUnit : Type 0 where
  g ml pc : MaterialUnit

pub data MovementType : Type 0 where
  sale adjustment restock : MovementType

pub record RecipeItem : Type 0 where
  pub raw_material_id : ℕ
  pub qty_per_serving : ℕ

pub record Category : Type 0 where
  pub name : Text
  pub icon : Option Text
  pub sort_order : ℕ
  pub is_new : Bool

-- A serving's nutrition, as far as it is known: whole calories, and hundredths of a gram.
pub record Nutrition : Type 0 where
  pub calories : Option ℕ
  pub protein : Option ℕ
  pub carbs : Option ℕ
  pub sugar : Option ℕ

pub record Product : Type 0 where
  pub name : Text
  pub price : ℕ
  pub tracking : StockTracking
  pub recipe_items : List RecipeItem
  pub prep_minutes : ℕ
  pub is_available : Bool
  pub barcode : Option Text
  pub category_id : ℕ
  pub description : Option Text
  pub icon : Option Text
  pub cost : Option ℕ
  pub ingredients : List Text
  pub allergens : List Text
  pub nutrition : Nutrition

-- A product's photo, found by its product; the bytes are numbers below 256.
pub data ImageType : Type 0 where
  webp jpeg png : ImageType

pub record ProductImage : Type 0 where
  pub bytes : List ℕ
  pub content_type : ImageType
  pub updated_at : ℕ

pub record Inventory : Type 0 where
  pub stock_qty : ℕ
  pub min_stock_threshold : ℕ

-- The nutrition columns of a raw material; the quantities are hundredths.
pub record FoodColumns : Type 0 where
  pub fdc_id : Option ℕ
  pub fdc_description : Option Text
  pub kcal_per_100g : Option ℕ
  pub protein_per_100g : Option ℕ
  pub carbs_per_100g : Option ℕ
  pub sugar_per_100g : Option ℕ

pub record RawMaterial : Type 0 where
  pub name : Text
  pub unit : MaterialUnit
  pub stock_qty : ℕ
  pub min_stock_threshold : ℕ
  pub cost_per_unit : Option ℕ
  pub is_active : Bool
  pub food : FoodColumns
  pub grams_per_unit : Option ℕ

pub record Order : Type 0 where
  pub order_number : Text
  pub customer_name : Option Text
  pub kiosk_session_id : Option Text
  pub status : OrderStatus
  pub order_type : OrderType
  pub total_amount : ℕ
  pub stock_issue : Bool
  pub stock_issue_note : Option Text
  pub estimated_prep_minutes : Option ℕ
  pub estimated_ready_at : Option ℕ
  pub handed_over_at : Option ℕ
  pub cancelled_at : Option ℕ
  pub cancel_reason : Option Text
  pub created_at : ℕ

pub record OrderItem : Type 0 where
  pub order_id : ℕ
  pub product_id : ℕ
  pub qty : ℕ
  pub unit_price : ℕ
  pub subtotal : ℕ
  pub special_instructions : Option Text

-- A payment is found by its order: the column is unique.
pub record Payment : Type 0 where
  pub method : PaymentMethod
  pub status : PaymentStatus
  pub amount : ℕ
  pub reference : Option Text
  pub paid_at : Option ℕ
  pub refunded_at : Option ℕ

-- A kitchen task is found by its order item: that column is unique too.
pub record KitchenTask : Type 0 where
  pub status : KitchenStatus
  pub started_at : Option ℕ
  pub completed_at : Option ℕ

pub record Movement : Type 0 where
  pub raw_material_id : ℕ
  pub delta : ℤ
  pub previous_qty : ℕ
  pub new_qty : ℕ
  pub type : MovementType
  pub reason : Option AdjustmentReason
  pub order_id : Option ℕ
  pub adjusted_by_id : Option ℕ
  pub note : Option Text

pub record StockAdjustment : Type 0 where
  pub product_id : ℕ
  pub delta : ℤ
  pub previous_qty : ℕ
  pub new_qty : ℕ
  pub reason : AdjustmentReason
  pub note : Option Text
  pub adjusted_by_id : ℕ

pub data Event : Type 0 where
  orders_changed : Event
  categories_changed : Event
  order_created : ℕ → Text → Event
  payment_confirmed : ℕ → Text → Option Text → Event
  inventory_updated : ℕ → Bool → ℕ → Event
  task_updated : ℕ → ℕ → KitchenStatus → Event

pub record Db : Type 0 where
  pub categories : Dict Category
  pub products : Dict Product
  pub images : Dict ProductImage
  pub inventory : Dict Inventory
  pub raw_materials : Dict RawMaterial
  pub orders : Dict Order
  pub order_items : Dict OrderItem
  pub payments : Dict Payment
  pub kitchen_tasks : Dict KitchenTask
  pub movements : List Movement
  pub stock_adjustments : List StockAdjustment
  pub events : List Event

pub data ShortageKind : Type 0 where
  unit material : ShortageKind

pub record Shortage : Type 0 where
  pub kind : ShortageKind
  pub id : ℕ
  pub name : Text
  pub unit : Option MaterialUnit
  pub needed : ℕ
  pub available : ℕ

-- What a service throws: an `HttpError`, its subclass for shortages, the error that rolls a
-- payment back, that of an unconfigured gateway, and Prisma's P2002, P2003
-- and P2025.
pub data Error : Type 0 where
  http_error : (status : ℕ) → (message : Text) → Error
  stock_shortage : (shortages : List Shortage) → (message : Text) → Error
  order_cancelled : Error
  paymongo_not_configured : Error
  unique_violation : Error
  foreign_key_violation : Error
  record_not_found : Error
  value_out_of_range : Error
