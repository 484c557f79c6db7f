-- ===== src/Bridge.antt =====
-- src/native/bridge.cpp, the C++ side of the extension module.
pub mod Throw
pub mod Options
pub mod Growable
pub mod Zstd
pub mod Apply
pub mod Frame
pub mod Streams
pub mod Hdiff
pub mod Tuning
pub mod Encode
pub mod Entry
pub mod Decompress
pub mod Compress
pub mod Pair
pub mod Sample
pub mod Copying
pub mod Tests
