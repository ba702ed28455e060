-- ===== src/Wmt.antt =====
-- wmt-launcher/: firmware metadata and the command frames of the WMT launcher service.
pub mod Patch
pub mod Protocol
pub mod Loader
pub mod Firmware
pub mod Launcher
