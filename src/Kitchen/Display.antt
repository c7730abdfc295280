-- ===== src/Kitchen/Display.antt =====
-- The kitchen display's queue: `listActiveTasks` of apps/api/src/modules/kitchen/service.ts.
use zak_s_sizzling.Prelude.{
  ℕ, ◌+◌, ◌*◌, Bool, true, false, not, ◌&&◌, ◌||◌, Option, none, some, List, [], ◌∷◌, leb,
  if◌then◌else◌,
}
use zak_s_sizzling.Prelude.Dict.{Dict}
use zak_s_sizzling.Store.{Db, OrderStatus, KitchenTask}
use zak_s_sizzling.Kitchen.{KitchenTaskDto, TaskRow, to_task_dto, task_row, is_done}

-- `BOARD_WINDOW_MS` of orders/service.ts: 12 hours.
abbrev pub board_window_ms : ℕ
board_window_ms = 12 * 60 * 60 * 1000

abbrev is_cancelled : OrderStatus → Bool
is_cancelled OrderStatus.cancelled = true
is_cancelled _ = false

abbrev pub is_ready : OrderStatus → Bool
is_ready OrderStatus.ready = true
is_ready _ = false

-- The query's two cases: a dish that is not done, of an order that is not cancelled; and a dish of
-- a ready order within the board's window.
pub is_active : ℕ → TaskRow → Bool
is_active now r =
    (not (is_done r.task.status) && not (is_cancelled r.order.status))
    || (is_ready r.order.status && leb now (r.order.created_at + board_window_ms))

abbrev shown : ℕ → Option TaskRow → List KitchenTaskDto → List KitchenTaskDto
shown now none rest = rest
shown now (some r) rest = if is_active now r then to_task_dto r ∷ rest else rest

-- Tasks are listed in the order in which they were created.
pub list_active_tasks : ℕ → Db → Dict KitchenTask → List KitchenTaskDto
unfolding is_active to_task_dto
list_active_tasks now db [] = []
list_active_tasks now db ((id, t) ∷ ts) = shown now (task_row db id t) (list_active_tasks now db ts)
