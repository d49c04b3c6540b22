-- ===== src/Qos/Subscription/Crossed.antt =====
-- qos/subscription.go: what becomes of two replays when the new supplier reuses an id of the old one.
use sage.Base.{string_key}
use sage.Qos.Subscription.{Subscription}
