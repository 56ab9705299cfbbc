-- ===== src/Daemon.antt =====
-- internal/daemon: the manifest of the files a client scans by itself, and the transcoding of UTF-16.
pub mod Stream
pub mod Utf16
pub mod RootStore
pub mod Server
