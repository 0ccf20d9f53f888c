-- ===== src/Repositories.antt =====
-- app/repositories: the statements that each repository executes, on the tables of the session's
-- database. `now` stands for the reading of the clock that a call makes.
pub mod Base
pub mod Users
pub mod Roles
pub mod Items
pub mod RefreshTokens
pub mod SingleUseTokens
pub mod Idempotency
pub mod Unique
pub mod Preferences
pub mod Cursor
pub mod RequestLogs
pub mod AuditLogs
pub mod Attachments
