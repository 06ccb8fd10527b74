-- ===== src/Guards.antt =====
-- The decisions of apps/api/src on which a request is let through.
pub mod Cooldown
pub mod Mutability
pub mod RolePolicy
mod Tests
