-- ===== src/Auth.antt =====
-- auth.go and auth_crypto.go: accounts, sessions and their tokens. The tables and what a request
-- meets are in Types, the handlers in Accounts, Register, Password, Login, Refresh and Access.
pub mod Answer
pub mod Types
pub mod Cipher
pub mod Sessions
pub mod Login
pub mod Reuse
pub mod Refresh
pub mod Access
pub mod Accounts
pub mod Register
pub mod Password
pub mod PasswordHash
pub mod Closed
pub mod Samples
mod Tests
mod LoginTests
mod PasswordTests
