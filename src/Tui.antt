-- ===== src/Tui.antt =====
-- tui/src: the terminal interface. Modelled is the setup of a Google Drive account.
pub mod DriveSetup
