-- ===== src/Commands.antt =====
-- src/commands: what the commands share.
pub mod Walk
