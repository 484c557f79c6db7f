-- ===== src/Api.antt =====
-- The functions of src/pyhdiff/__init__.py, over the extension module and a hash.
mod Values
mod Codes
mod Envelope
mod Calls
pub mod Inspect
pub mod Apply
pub mod Refuse
pub mod Encode
pub mod Classes
pub mod Sample
mod Tests
unfoldable pub use Values.*
unfoldable pub use Codes.*
unfoldable pub use Envelope.*
unfoldable pub use Calls.*
