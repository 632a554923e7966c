-- ===== src/Providers.antt =====
-- core/src/providers: what the providers do without the network.
pub mod Nextcloud
pub mod Oauth
pub mod GoogleDrive
