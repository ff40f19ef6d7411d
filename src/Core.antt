-- ===== src/Core.antt =====
-- The wiki and community application, apps/core.
pub mod WikiMarkdown
pub mod CommunityContent
pub mod Models
pub mod Forms
pub mod AdminUsers
pub mod Reactions
pub mod Comments
pub mod WikiEmbeddings
pub mod LinkedWiki
pub mod AdminContent
pub mod Ingestion
