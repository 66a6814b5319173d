-- ===== src/Model.antt =====
-- internal/model/model.go: the constants, and in the child modules the rows of the tables.
-- The primary key of a row stands where the code reads it; rows are kept in its order. The columns
-- created_at and updated_at are left out unless the code decides by them.
pub mod Account
pub mod Session
pub mod Tenancy
pub mod Status
pub mod IdType
pub mod Method
pub mod Scene
pub mod Join
pub mod Role
