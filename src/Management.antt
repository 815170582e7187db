-- ===== src/Management.antt =====
-- The management service: arthur/miles/backend/management/src. The children hold the intake of
-- measurement jobs, the HTTP handlers, the pages of a queue and the information page.
pub mod Intake
pub mod Api
pub mod Queues
pub mod Pages
pub mod Listing
pub mod Info
pub mod Tests
