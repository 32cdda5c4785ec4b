-- ===== src/External/Sample.antt =====
-- Concrete values of the interfaces of the third-party libraries.
mod Texts
mod Store
unfoldable pub use Texts.{boost_text}
unfoldable pub use Store.{jsoncons, regex, clock, uuids, jwt}
pub use Store.{jwt-other_key}
