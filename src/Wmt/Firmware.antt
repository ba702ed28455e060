-- ===== src/Wmt/Firmware.antt =====
-- wmt-launcher/firmware.c and firmware.h: the two searches of the firmware directory.
pub mod Files
pub mod Directory
pub mod Versions
pub mod Patches
pub mod Roms
pub mod ReadEnds
pub mod Reads
pub mod Candidates
pub mod Loads
pub mod Sums
pub mod Search
pub mod Finds
pub mod Texts
pub mod RomVersions
pub mod RomSets
pub mod RomSearch
mod Tests
