-- ===== src/Flake.antt =====
-- scripts/flake_update.py: the weekly update of flake.lock, and the check of its result.
pub mod Lock
pub mod Github
pub mod Check
pub mod Cves
pub mod Update
pub mod Closure
pub mod Carry
