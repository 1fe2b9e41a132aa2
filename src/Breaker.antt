-- ===== src/Breaker.antt =====
-- common/storage_resilience.cpp: the circuit breaker in front of the blob store, for one process.
pub mod Config
pub mod State
pub mod Shared
pub mod Calls
pub mod Phase
pub mod Steps
pub mod Probes
pub mod Bounds
