-- ===== src/Models.antt =====
-- The mapped classes of app/models, as the rows of a database. A moment is a number of microseconds
-- since the epoch in UTC. Columns that no modelled code reads (`updated_at`, and `created_at` where
-- only a response shows it) are left out.
mod Accounts
mod Content
mod Tokens
mod Logs
mod Database
pub use Accounts.*
pub use Content.*
pub use Tokens.*
pub use Logs.*
pub use Database.*
