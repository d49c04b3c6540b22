-- ===== src/Drain/Redis/Overtaken.antt =====
-- drain/redis.go: finishWrite, where a newer Set or a deletion on the wire is overtaken.
use sage.Base.{ℕ, ◌≡◌, true, false, Option, none, some, []}
use sage.Drain.{Entry}
use sage.Drain.Redis.Wire.{Write, Wire, quiet_wire, deletes, Reach}

-- A run that ends with nothing on the wire and nothing to retry, and with the field `f`, although the
-- last decision was to set `b`.
abbrev pub EndsWith : Option Entry → Entry → Type 0
EndsWith f b =
    (w : Wire) × Reach quiet_wire w
    × (w.decided ≡ some b)
    × (w.tracked ≡ none)
    × (w.writes ≡ [])
    × (w.deletes ≡ 0)
    × (w.field ≡ f)

abbrev sent : Entry → ℕ → Write
sent e gen = record { entry = e; gen = gen; landed = false }

abbrev applied : Entry → ℕ → Write
applied e gen = record { entry = e; gen = gen; landed = true }
