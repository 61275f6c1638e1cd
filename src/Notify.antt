-- ===== src/Notify.antt =====
-- internal/notify: the Discord notifications of what `Derive` reports, batched by a goroutine.
pub mod Payload
pub mod Sender
pub mod Disabled
pub mod Refused
pub mod Splits
pub mod Queue
pub mod Coalesce
pub mod Loop
pub mod Stuck
pub mod Bounds
pub mod Progress
