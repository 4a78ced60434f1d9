-- ===== src/Container.antt =====
-- container/container.go, one child for each of its parts and for what is proved of them.
pub mod Config
pub mod Sys
pub mod Maps
pub mod Settings
pub mod Append
pub mod Refresh
pub mod Conf
pub mod Patch
pub mod Refused
pub mod Environ
pub mod Given
pub mod EnvFile
pub mod Method
pub mod Setup
pub mod Shell
pub mod Run
pub mod Resume
pub mod Held
pub mod Images
pub mod Relied
pub mod Generate
pub mod Common
pub mod Overview
pub mod Initial
pub mod Install
pub mod Load
pub mod Offline
pub mod Merge
pub mod Layer
pub mod Commit
pub mod Listed
pub mod Guarded
pub mod Push
pub mod Composed
pub mod Update
pub mod Stopped
pub mod Started
pub mod Expose
pub mod Destroy
pub mod Registry
pub mod Lifecycle
pub mod Leave
pub mod History
mod Tests
