-- ===== src/Dns.antt =====
-- DNS names and Cloudflare zones (src/switchboard-core/src/cloudflare-dns.ts and domain-pool.ts).
pub mod Names
pub mod Zones
pub mod Longest
pub mod Pool
pub mod Tests
pub mod Api
pub mod Requests
pub mod Upsert
pub mod Records
pub mod ZoneLaws
pub mod Clearing
pub mod ZoneOf
pub mod Cname
mod CnameTests
