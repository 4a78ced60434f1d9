-- ===== src/Utils.antt =====
-- utils/utils.go, one child for each family of functions.
pub mod Files
pub mod Version
pub mod Copies
pub mod Permissions
pub mod Untar
pub mod Moving
pub mod Pack
pub mod Temp
pub mod Linked
pub mod Whiteout
mod Tests
pub mod Folders
pub mod Guess
