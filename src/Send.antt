-- ===== src/Send.antt =====
-- Sending to an address: frontend/src/components/Send, and the link that ReceiveModal.tsx shows. A
-- text is the list of its character codes.
pub mod Intents
pub mod Form
pub mod Modal
mod Tests
