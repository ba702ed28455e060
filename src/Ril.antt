-- ===== src/Ril.antt =====
-- ril-shim/k50sv1_ril_shim.c: the library that rilproxy loads in place of MediaTek's.
pub mod Types
pub mod Capability
pub mod Attach
pub mod Worker
pub mod Recovery
pub mod Scan
pub mod Got
pub mod Init
pub mod Shim
