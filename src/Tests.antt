-- ===== src/Tests.antt =====
-- Runs of the code at concrete inputs, and instances of the theorems.
pub mod Maps
pub mod Sets
pub mod Hashes
pub mod Traces
pub mod Dirname
pub mod Disks
pub mod Targets
pub mod Buffers
pub mod Builds
pub mod Machines
pub mod Tools
pub mod Cache
