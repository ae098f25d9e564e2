-- ===== src/Orders.antt =====
-- src/orders: the event bus of status changes, its SSE stream, and the orders API.
pub mod Events
pub mod Ids
pub mod Rows
pub mod Service
pub mod Create
pub mod Access
pub mod Loads
pub mod Status
pub mod Failures
pub mod Once
pub mod Cursor
pub mod Http
pub mod Tests
