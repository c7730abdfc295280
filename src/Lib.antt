-- ===== src/Lib.antt =====
-- Zak's Sizzling Hub: a restaurant's kiosk, counter, kitchen and payments. The API's services keep
-- their state in PostgreSQL, and this library models their core on that database.
--
-- The parts. A kiosk places an order (apps/api/src/modules/orders/service.ts), which is pending
-- until it is paid. The counter, PayMongo's webhook or the kiosk's own check confirms the payment
-- (payments/service.ts): one transaction marks the row paid, takes the stock
-- (inventory/fulfillment.ts), confirms the order and creates its kitchen tasks
-- (kitchen/service.ts), with the estimated time of orders/prepTime.ts. The kitchen moves the
-- dishes, the order's status follows them, and a ready order is handed over. The queue cancels an
-- unpaid order, the kitchen cancels a paid one and puts unstarted dishes back into stock. A note
-- (payments/attentionNote.ts) tells staff what a payment needs, until they settle it.
--
-- The files.
--   Prelude    shared names: tests, lists measured by native numbers, integers, texts (lists of
--              UTF-16 code units), tables as association lists, and a sort of a table by its keys.
--   Store      Data: the rows of apps/api/prisma/schema.prisma, the events and the errors. Calls:
--              a service call as a function of the database that answers or throws; a transaction
--              takes back what a throwing call wrote; updateMany as update_where.
--   Stock      inventory/fulfillment.ts: Needs (computeStockNeeds, findShortages,
--              servingsAvailable), Deduct (deductStockForOrder), Return (returnStockForLines),
--              NewOrder (assertStockForNewOrder), Refresh (refreshAvailability).
--   Orders     orders/service.ts: Dto (toOrderDTO, getOrderById), Create (createOrder), Cancel
--              (cancelOrder), Attention (markAttentionSortedOut), Board (getOrderBoard, listOrders),
--              History (listTransactions); PrepTime is orders/prepTime.ts.
--   Payments   payments/service.ts: Confirm (loadPayableOrder, markPaymentPaidIfNotAlready,
--              confirmCounterPayment), Online (recordOnlinePayment, flagForStaff), QrPh
--              (createQrPhPayment, checkQrPhPayment, switchToCounterPayment), Webhook
--              (handleWebhook); AttentionNote is payments/attentionNote.ts.
--   Kitchen    kitchen/service.ts: tasks and updateTaskStatus in Kitchen, then Display
--              (listActiveTasks), HandOver (handOverOrder), Cancel (cancelKitchenOrder).
--   Inventory, RawMaterials
--              manual stock changes: inventory/service.ts and adjustRawMaterialStock of
--              raw-materials/service.ts.
--   Menu, Products
--              products/service.ts: Menu has what is shown (toProductDTO, listProducts), Products
--              the edits (createProduct, updateProduct, deleteProduct). Products.Image is
--              products/image.ts, Products.Import with Run is products/bulkImport.ts; the modules
--              below them have the proofs.
--   Categories categories/service.ts; Names and Rail prove what is kept.
--   Login      the emailed sign-in codes: auth/loginCodes.ts. Session is auth/service.ts with
--              apps/api/src/lib/jwt.ts, Staff is users/service.ts, Access is authenticate.ts and
--              authorize.ts of apps/api/src/middleware.
--   Paymongo   apps/api/src/lib/paymongo.ts: verifyWebhookSignature, and in Event findString and
--              parseWebhookEvent.
--   Alerts     the worker's low-stock emails: apps/worker/src/jobs/sendLowStockAlerts.ts, with their
--              text in Email.
--   Csv        the CSV reader and writer of apps/api/src/lib/csv.ts.
--   RateLimit  the limiter of apps/api/src/middleware/rateLimit.ts, with Window on how many
--              requests it lets through, and in Limits the limits in use.
--   Nutrition  a dish's nutrition from its recipe: nutrition/calc.ts.
--
--   System     the calls as steps of one database, in any order, and what holds in every state
--              that they reach.
--   Tests      one small restaurant on which the theorems are applied.
--
-- Correspondence. Amounts are centavos, recipe quantities are thousandths, times are milliseconds
-- and ids are natural numbers. What adjustRawMaterialStock is given is in millionths, as its checks
-- come before the column rounds; updateStaffUser is given texts for ids, which it compares as they
-- are spelled, with a function to the account that a text finds. Numbers are unbounded, but for a
-- product's price, cost, count and threshold, which an import can put beyond what their columns hold:
-- the database refuses those. The requests' schemas keep all other quantities far below what
-- JavaScript and the columns hold. What comes from outside (the clock, fresh ids,
-- drawn order numbers, the answers of PayMongo and whether it is configured) is an argument, and so
-- are, for the webhook's handler, the verdict of Paymongo on the signature and the event that
-- Paymongo.Event reads. A handler that reads an order before its transaction
-- starts passes that snapshot on, and the theorems take any snapshot, so they also cover calls
-- that ran in between; a single statement and a transaction are one step each, and a row's lock is
-- not modelled. createQrPhPayment waits for PayMongo after its check, so what other calls write
-- meanwhile is an argument; as a step of the system it is the recording of its answer alone, taken
-- with an earlier snapshot. Foreign keys hold, so that a joined row is always found, and a Payment Intent
-- belongs to one order, so that the unique column of references is not checked. Libraries are
-- parameters: the token library is what signs a payload and verifies it until its time is over,
-- bcrypt a comparison, an HMAC any function to bytes, JavaScript's toLowerCase and Number any
-- functions on texts, and PostgreSQL's comparison without capitals an equality of folded texts.
-- An import may draw any new id for a row. Loops are structural; createOrder has five attempts, as
-- in the source, and a number is printed with as many digits as its value plus one, which is always
-- enough.
--
-- Not modelled: the web pages, the print service, the database's own code with the triggers that
-- queue alerts, the routes' parsing and schemas, reports, the spreadsheet reader, backups, the texts
-- of the sign-in mails, logs, and the gateway itself.
mod Prelude
pub mod Store
pub mod Stock
pub mod Orders
pub mod Payments
pub mod Kitchen
pub mod Inventory
pub mod RawMaterials
pub mod RateLimit
pub mod Login
pub mod Nutrition
pub mod Csv
pub mod Categories
pub mod Menu
pub mod Products
pub mod Alerts
pub mod Paymongo
pub mod System
mod Tests
