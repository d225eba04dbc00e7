-- ===== src/Tests.antt =====
-- Concrete libraries and data, and the theorems applied to them.
mod Toys
mod CelTests
mod WebhookTests
mod ControllerTests
mod DeepCopyTests
mod StatusTests
mod MainTests
mod JointTests
