-- ===== src/Webhooks.antt =====
-- Webhook endpoints and deliveries (apps/api/src/modules/webhooks/webhooks.service.ts).
pub mod Events
pub mod Emit
pub mod Hosts
pub mod Endpoints
pub mod Health
pub mod Deliver
