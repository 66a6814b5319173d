-- ===== src/Auth.antt =====
-- internal/authenticator: the login methods. Each verifies a request and yields the identity that it
-- proves; the services go from there.
pub mod Principal
pub mod Otp
pub mod Password
pub mod Registry
pub mod Steadiness
