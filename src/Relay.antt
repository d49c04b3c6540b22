-- ===== src/Relay.antt =====
-- relay/: the middleware chain.
pub mod ChainOrder
pub mod Retry
pub mod Sink
