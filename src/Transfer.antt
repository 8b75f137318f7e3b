-- ===== src/Transfer.antt =====
-- The withdraw, deposit and convert dialogs of frontend/src/components/Transfer.
pub mod Machine
pub mod Withdraw
pub mod Deposit
pub mod Convert
pub mod Banner
pub mod Rules
mod Tests
