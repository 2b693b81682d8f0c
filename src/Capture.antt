-- ===== src/Capture.antt =====
-- Packet capture: src/modules/packet_capture.
pub mod LockFree
pub mod DataRing
pub mod Handover
pub mod Dpdk
pub mod Dispatch
pub mod Timer
pub mod Reader
pub mod Worker
