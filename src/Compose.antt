-- ===== src/Compose.antt =====
-- scripts/check_compose.py, one module for each group of functions.
pub mod Port
pub mod Path
pub mod Volume
pub mod Problem
pub mod PortRules
pub mod VolumeRules
pub mod File
pub mod Run
