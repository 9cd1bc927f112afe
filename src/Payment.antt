-- ===== src/Payment.antt =====
-- src/app/payment: the repositories, the payment service and the Kashier webhook with its
-- signature.
pub mod Repo
pub mod Webhook
pub mod Service
pub mod Signature
