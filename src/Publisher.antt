-- ===== src/Publisher.antt =====
-- issuer-node/internal/gateways/publisher.go: the publication of identity states.
pub mod Node
pub mod Proof
pub mod Receipt
pub mod Entry
pub mod Check
pub mod Guard
pub mod Outcome
pub mod Confirm
pub mod Job
pub mod Tests
pub mod LaterTests
