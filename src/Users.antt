-- ===== src/Users.antt =====
-- The accounts of user-service: user-service/src/services/auth.service.js and user.service.js, with
-- user-service/src/utils/otp.js and utils/auth.js.
pub mod Rows
pub mod Otp
pub mod Auth
pub mod Guesses
pub mod Rotation
pub mod SignUp
pub mod Google
mod Examples
