-- ===== src/Orders.antt =====
-- Orders (apps/api/src/modules/orders).
pub mod PrepTime
pub mod Dto
pub mod Cancel
pub mod Attention
pub mod Create
pub mod Board
pub mod History
