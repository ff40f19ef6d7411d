-- ===== src/Accounts.antt =====
-- The accounts application, apps/accounts.
pub mod Models
pub mod Directory
pub mod Sessions
pub mod RateLimit
pub mod Notifications
pub mod OAuth
pub mod OAuthFlow
pub mod Login
pub mod Middleware
pub mod Forms
pub mod Uploads
