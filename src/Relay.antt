-- ===== src/Relay.antt =====
-- The relays of the network (src/switchboard-core/src/relay-*.ts and cli/src/relay/).
pub mod Lifecycle
pub mod Authority
pub mod Leadership
pub mod Election
pub mod Failover
pub mod Duration
pub mod Budget
pub mod Tests
pub mod Diff
pub mod DiffOnce
pub mod DiffTests
pub mod Peers
pub mod PeerTests
pub mod Status
pub mod Readiness
pub mod ReadinessEnds
mod ReadinessTests
