-- ===== src/Repositories/Unique.antt =====
-- Unique constraints: no two rows of a table clash, so a query for one row finds at most one.
mod Keys
mod Writes
mod Finds
pub use Keys.*
pub use Writes.*
pub use Finds.*
