-- ===== src/Trust.antt =====
-- The signed release index, src/MQTTBridge/trust.py.
pub mod Platform
pub mod Format
pub mod Keys
pub mod Memory
pub mod State
pub mod Release
pub mod Index
pub mod Accept
pub mod Rule
pub mod History
pub mod Authentic
