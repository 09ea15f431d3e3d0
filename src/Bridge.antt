-- ===== src/Bridge.antt =====
-- cmd/bridge: the honeypot bridge in front of the vault.
pub mod Flags
