-- ===== src/Ebpf.antt =====
-- The kernel events of the crate `aether-ebpf`.
pub mod Bytes
pub mod Events
pub mod RingBuffer
pub mod Encode
pub mod Results
pub mod RoundTrip
pub mod Outcome
pub mod Poll
pub mod Tests
