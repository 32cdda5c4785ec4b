-- ===== src/External.antt =====
-- The third-party libraries that the server calls: their interfaces, and sample values of these.
mod Interfaces
mod Sample
pub use Interfaces.*
unfoldable pub use Sample.*
