-- ===== src/Store.antt =====
-- The database (apps/api/prisma/schema.prisma) as far as the modelled services read and write it:
-- each table is a dictionary by its unique key. Ids are numbers, in the order of their text.
-- Money is in centavos, a raw material's quantity in thousandths of its unit, a time in
-- milliseconds; the columns are decimals of two and of three places, so nothing is rounded.
-- `events` is what was sent to the open screens (apps/api/src/websocket/index.ts).
mod Data
mod Calls
pub use Data.*
pub use Calls.*
