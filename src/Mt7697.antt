-- ===== src/Mt7697.antt =====
-- The WiFi/Bluetooth co-processor's transport: linux_kernel_modules/mt7697q.
pub mod Fields
pub mod Memory
pub mod Host
pub mod Io
pub mod Bus
pub mod Queue
mod Tests
