-- ===== src/System.antt =====
-- The calls on the orders together (apps/api/src/modules): each is a step of the database, in any
-- order. A confirmation's snapshot is arbitrary, so it may be stale.
pub mod PaidFor
pub mod Race
use zak_s_sizzling.Prelude.{ℕ, ◌≡◌, Option, none, some, Bool, false, ◌==◌}
use zak_s_sizzling.Prelude.Text.{Text}
use zak_s_sizzling.Prelude.Dict.{lookup}
use zak_s_sizzling.Store.{Db, KitchenStatus, Result}
use zak_s_sizzling.Orders.Create.{Draw, OrderInput, create_order}
use zak_s_sizzling.Orders.Cancel.{cancel_order}
use zak_s_sizzling.Orders.Attention.{Resolution, mark_attention_sorted_out}
use zak_s_sizzling.Payments.Confirm.{Snapshot, PaidUpdate, PaidCreate, confirm_counter_snapshot}
use zak_s_sizzling.Payments.Confirm.Once.{is_settled}
use zak_s_sizzling.Payments.Online.{record_online_payment, flag_for_staff}
use zak_s_sizzling.Payments.QrPh.{
  QrPhCode, record_qrph, refuse_qrph, switch_payment, switch_to_counter_payment,
}
use zak_s_sizzling.Kitchen.{update_task_status}
use zak_s_sizzling.Kitchen.HandOver.{hand_over_order}
use zak_s_sizzling.Kitchen.Cancel.{cancel_kitchen_order}

-- One call, whether it succeeds or throws. The ids of a new order are fresh. A QR code that PayMongo
-- made is recorded in a step of its own, after any others, while the order's payment is not settled:
-- the source does not check that again, and a payment that was settled in between is reset. The
-- write of a switch to the counter is also a step, for one whose order was read earlier.
pub data Step : Db → Db → Type 0 where
  step_create :
      (d : Draw)
      → (input : OrderInput) → (db : Db) → lookup d.order_id db.orders ≡ none
      → Step db (create_order d input db).1
  step_counter :
      (now : ℕ) → (s : Snapshot) → (db : Db) → Step db (confirm_counter_snapshot now s db).1
  step_online :
      (now : ℕ)
      → (s : Snapshot) → (paid : ℕ) → (reference : Option Text) → (u : PaidUpdate)
      → (c : PaidCreate) → (db : Db) → Step db (record_online_payment now s paid reference u c db).1
  step_flag : (id : ℕ) → (note : Text) → (db : Db) → Step db (flag_for_staff id note db).1
  step_qrph :
      (answer : Result QrPhCode)
      → (s : Snapshot) → (db : Db) → is_settled s.id db ≡ false
      → Step db (record_qrph answer s db).1
  step_qrph_refused : (s : Snapshot) → (db : Db) → Step db (refuse_qrph s db).1
  step_switch : (id : ℕ) → (db : Db) → Step db (switch_to_counter_payment id db).1
  step_switch_late : (id : ℕ) → (db : Db) → Step db (switch_payment id db)
  step_task :
      (now id : ℕ)
      → (status : KitchenStatus) → (db : Db) → Step db (update_task_status now id status db).1
  step_hand_over : (now id : ℕ) → (db : Db) → Step db (hand_over_order now id db).1
  step_cancel_kitchen :
      (now id : ℕ)
      → (reason : Text) → (user_id : ℕ) → (db : Db)
      → Step db (cancel_kitchen_order now id reason user_id db).1
  step_cancel : (now id : ℕ) → (db : Db) → Step db (cancel_order now id db).1
  step_sorted_out :
      (now id : ℕ)
      → (seen : Option Text) → (resolution : Option Resolution) → (db : Db)
      → Step db (mark_attention_sorted_out now id seen resolution db).1

pub data Reachable (start : Db) : Db → Type 0 where
  here : Reachable start start
  next : {db db' : Db} → Reachable start db → Step db db' → Reachable start db'
