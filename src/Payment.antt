-- ===== src/Payment.antt =====
-- Payments that a merchant's link starts: frontend/src/utils/payment-params.ts and the dialog of
-- frontend/src/components/PaymentConfirmation.tsx and PaymentConfirmationModal.tsx.
pub mod Params
pub mod Dialog
