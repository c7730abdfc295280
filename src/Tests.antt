-- ===== src/Tests.antt =====
-- Sample runs: each theorem applied to one small restaurant.
pub mod Sample
mod Stock
pub mod Payments
mod Kitchen
pub mod Orders
mod Guards
mod System
pub mod Menu
mod Import
mod Worker
mod Access
