-- ===== src/Services.antt =====
-- app/services: the business rules, over the repositories.
pub mod AuthService
pub mod Support
pub mod UserService
pub mod IdempotencyService
pub mod SingleUseTokens
pub mod PasswordReset
pub mod EmailVerification
pub mod ItemService
pub mod RoleService
pub mod PreferencesService
pub mod RequestLogService
pub mod AuditLogService
pub mod AttachmentService
