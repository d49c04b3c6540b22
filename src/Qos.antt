-- ===== src/Qos.antt =====
-- qos/: the chain head that the observations of a pool agree on, and the subscriptions of a
-- WebSocket connection.
pub mod Consensus
pub mod Subscription
