-- ===== src/Scripts.antt =====
-- The scripts under scripts/ that decide something about releases.
pub mod Text
pub mod Files
pub mod Build
pub mod Golden
pub mod Release
pub mod Pack
pub mod Generate
pub mod Wheel
pub mod Toolchain
pub mod Checks
pub mod Tests
