-- ===== src/Repo.antt =====
-- internal/repository: the statements that the services issue, one module for each group of tables.
-- gorm's First takes the row with the least primary key, and `updated_at` and the like are its own.
pub mod Tokens
pub mod Challenges
pub mod Accounts
pub mod Tenancy
pub mod Redis
