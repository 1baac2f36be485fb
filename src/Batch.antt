-- ===== src/Batch.antt =====
-- otel/src/trace/batch_processor.rs: the bounded batch span processor.
pub mod Config
pub mod Bounds
pub mod Classify
pub mod GrpcStatus
pub mod Metrics
pub mod Processor
pub mod Attempt
pub mod Take
pub mod Round
pub mod Taking
pub mod Tallying
pub mod Settling
pub mod Worker
pub mod Drained
pub mod Draining
pub mod Run
pub mod Accounting
pub mod Steps
pub mod Waiting
pub mod Shutdown
mod Examples
