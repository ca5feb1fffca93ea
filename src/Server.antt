-- ===== src/Server.antt =====
-- backend/cmd/api-svc and backend/cmd/upload-svc (Go): what the frontend's pages rely on.
pub mod Members
pub mod Counting
pub mod Folders
pub mod Files
pub mod Shares
pub mod Accounts
