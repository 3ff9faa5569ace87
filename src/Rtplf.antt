-- ===== src/Rtplf.antt =====
-- The platform module, src/rtplf.
pub mod Memory
pub mod Text
pub mod Stdio
pub mod Convert
pub mod Clock
mod Tests
