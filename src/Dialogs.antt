-- ===== src/Dialogs.antt =====
-- The dialogs of frontend/components/files that are modelled.
pub mod VersionHistory
pub mod Share
pub mod Upload
pub mod VideoPlayer
