-- ===== src/Stock.antt =====
-- Stock for orders (apps/api/src/modules/inventory/fulfillment.ts), a child for each part.
pub mod Needs
pub mod Deduct
pub mod Return
pub mod NewOrder
pub mod Refresh
