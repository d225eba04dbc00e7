-- ===== src/Webhook.antt =====
-- internal/webhook/v1: the configuration store, the defaulter and the patch filter.
pub mod ConfigStore
pub mod Defaulter
pub mod PatchFilter
pub mod Setup
