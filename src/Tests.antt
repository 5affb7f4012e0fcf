-- ===== src/Tests.antt =====
-- The theorems at concrete inputs, and runs of the model.
mod Compose
mod Locks
mod Allowed
mod Flake
mod Update
mod Issues
mod Filing
mod Data
mod Minecraft
mod Relay
mod Rerun
