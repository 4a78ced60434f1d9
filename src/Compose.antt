-- ===== src/Compose.antt =====
-- compose/type.go, and the functions of container/container.go that run a compose file.
-- Vendor holds what the code calls of other packages; Validate has the file format and the validation; Order
-- and Checks prove what Validate promises.
pub mod Vendor
pub mod Validate
pub mod Order
pub mod Rank
pub mod Run
pub mod Steps
pub mod Fields
pub mod Checks
mod Tests
