-- ===== src/Gate.antt =====
-- The concurrency gate (src/limiter/gate.ts): a resizable semaphore with reservations and a wait
-- queue, joined with the circuit breaker.
pub mod State
pub mod Capacity
pub mod Semaphore
pub mod Calls
pub mod Bounds
pub mod Ceiling
pub mod Accounts
pub mod Borrow
pub mod Drain
pub mod Answers
pub mod Numbers
pub mod Probe
mod Tests
