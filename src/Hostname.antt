-- ===== src/Hostname.antt =====
-- Hostnames that customers attach (src/switchboard-core/src/customer-hostname.ts).
pub mod Providers
pub mod Attachment
pub mod Certificate
pub mod Cname
pub mod Reaches
pub mod FirstZone
mod Tests
