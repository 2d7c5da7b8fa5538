-- ===== src/Runtime.antt =====
-- core/runtime: coordination between workers. Times are whole ticks of the injected clock, which is
-- read at each call and passed in as `now`.
pub mod Lease
pub mod RateLimit
pub mod Cache
pub mod Admission
pub mod Queue
pub mod Outbox
pub mod Worker
pub mod Fair
