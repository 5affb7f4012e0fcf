-- ===== src/Relay.antt =====
-- modules/observability/alert-relay.py: the relay from Alertmanager's webhook to Discord.
pub mod Lasted
pub mod Messages
pub mod Posts
