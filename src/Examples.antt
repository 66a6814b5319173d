-- ===== src/Examples.antt =====
-- The theorems at concrete inputs, and runs of the operations.
pub mod Setting
pub mod Codes
pub mod Tokens
pub mod StepUp
pub mod Rules
pub mod Passwords
pub mod Users
pub mod Webhooks
pub mod Keys
pub mod Logins
pub mod Accounts
pub mod Entry
pub mod Guards
pub mod Admins
