-- ===== src/Service.antt =====
-- internal/service: the operations behind the HTTP handlers.
pub mod Apps
pub mod Risk
pub mod Tenants
pub mod OauthFlow
pub mod Login
pub mod Binding
pub mod Profile
pub mod Hosted
pub mod Merge
pub mod Invites
pub mod AdminSession
pub mod Roles
pub mod Mfa
pub mod StepUp
pub mod Passwords
pub mod Tokens
pub mod Steadiness
pub mod Traffic
pub mod Users
pub mod Completion
