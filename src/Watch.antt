-- ===== src/Watch.antt =====
-- watch/: what Consul reports, compared and turned into events.
pub mod Health
pub mod Compare
pub mod Fingerprint
pub mod Service
pub mod Readiness
pub mod Loop
pub mod Sync
pub mod Lists
