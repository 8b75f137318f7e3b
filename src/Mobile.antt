-- ===== src/Mobile.antt =====
-- The mobile application, mobile/src.
pub mod Client
pub mod Amount
pub mod Number
pub mod Rules
pub mod Review
pub mod Transfer
pub mod Send
pub mod Auth
pub mod Verify
pub mod Contexts
pub mod Receive
pub mod Settings
pub mod Transactions
