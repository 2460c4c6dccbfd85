-- ===== src/Push.antt =====
-- The package `push`: messages, targets and errors, installations, and the dispatcher.
pub mod Errors
pub mod Types
pub mod Targets
pub mod Retry
pub mod Batch
pub mod Send
pub mod Payload
pub mod Installation
pub mod Fcm
pub mod Store
