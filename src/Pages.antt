-- ===== src/Pages.antt =====
-- The pages of frontend/app that are modelled, each with its state, its handlers and what it
-- renders.
pub mod SignIn
pub mod PublicShare
pub mod SharedLinks
pub mod Profile
pub mod Dashboard
pub mod Layout
pub mod SignUp
pub mod ResetPassword
pub mod ForgotPassword
pub mod Files
