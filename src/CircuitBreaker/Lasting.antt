-- ===== src/CircuitBreaker/Lasting.antt =====
-- circuitbreaker/breaker.go: how long a removal lasts, whatever is reported meanwhile.
use sage.Base.{◌≢◌, String, string_key}
use sage.CircuitBreaker.Hits.{Call, reports, clears}

-- A call that is not a Clear of the service.
abbrev pub Spares : String → Call → Type 0
Spares service (reports s d r) = Unit
Spares service (clears s) = s ≢ service
