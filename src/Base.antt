-- ===== src/Base.antt =====
-- The names that every module shares: the library's, passed on, and those of the children.
mod Names
mod Tests
mod Lists
mod Strings
mod Sort
pub use Names.*
pub use Tests.*
pub use Lists.*
unfoldable pub use Strings.*
unfoldable pub use Sort.*
