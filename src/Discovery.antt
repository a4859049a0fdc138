-- ===== src/Discovery.antt =====
-- Signed manifests and service catalogs, and their discovery (src/switchboard-core/src/report-signing.ts,
-- network-manifest.ts, service-catalog.ts and service-discovery.ts).
pub mod Types
pub mod Outside
pub mod Signing
pub mod Manifests
pub mod Catalogs
pub mod Discover
pub mod Trust
pub mod ManifestTrust
pub mod Resolved
pub mod Offered
pub mod Failing
pub mod Members
mod Tests
