-- ===== src/Relay.antt =====
-- The relay of results, arthur/miles/backend/worker/rabbit-relay/src/RelayWorker.ts: a bullmq worker
-- that hands each status on to a durable queue of RabbitMQ. The children hold the cached connection
-- and channel, one job, and what they keep to.
pub mod Channel
pub mod Job
pub mod Refused
mod Tests
