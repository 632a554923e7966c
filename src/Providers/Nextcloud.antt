-- ===== src/Providers/Nextcloud.antt =====
-- core/src/providers/nextcloud: remote paths and the names that a collision leads to.
pub mod Paths
pub mod Collision
