-- ===== src/Frontend.antt =====
-- The user interface of Miles, arthur/miles/frontend/src: the overview of the queues, and the form
-- that asks the management service for a job.
pub mod Modal
pub mod Overview
pub mod Save
pub mod Headless
mod Tests
