-- ===== src/Lib.antt =====
-- SAGE is a gateway that relays client requests to the suppliers of Pocket Network. A request
-- passes a chain of middleware; the last link sends it to one endpoint of the session's pool.
-- Around the chain stand the parts that keep bad operators out of that pool: the circuit breaker
-- removes a domain whose failure rate is high, method blocks steer a method away from a host that
-- refuses it, drains take a whole operator out for a time, and the auto-drain engine sets drains
-- on its own. A block list, which operators edit, keeps a domain from chosen RPC types altogether.
-- Drains are shared between replicas through Redis, and one replica at a time, the leader, runs
-- the health checks. An attempt that fails is retried on another endpoint, and what an attempt
-- shows of a supplier reaches the reputation service in batches. The block consensus of a service
-- says how high its chain is, so that endpoints that lag can be told from those that do not, and
-- the selector picks an endpoint by its reputation's tier. This library models these parts as
-- functions on explicit states and proves what they keep.
--
-- The modules, the files they model, and the functions:
--
-- Relay.ChainOrder      relay/chain_order.go. ValidateChainOrder is validate_chain_order; the
--                       error is a value, and its text is not modelled.
-- CircuitBreaker        circuitbreaker/breaker.go. Gate has shouldBreak and RecordSuccess, Ops has
--                       MarkBroken, Clear, IsBroken, GetBroken and BrokenDomains, Redis the
--                       refresh from Redis and the merge. Writes to Redis, the start of a refresh
--                       and calls of the outcome hook are effects that an operation returns. How
--                       an entry's JSON is decoded is a parameter.
-- MethodBlock           methodblock/store.go. Mark has Mark and Blocked, Store has the setters,
--                       Clear, Active and sweep.
-- Drain                 drain/store.go, drain/memory.go and drain/merge.go. Memory has Set,
--                       Release, Drained, Active and replaceAll (the merge with a snapshot of
--                       Redis), Merge the view over a local and a peer's store. strings.ToLower is
--                       a parameter.
-- Drain.Redis           drain/redis.go. Field has redisField and parseRedisField, Track the records
--                       of writes that are not confirmed (beginSet, beginRelease, finishWrite,
--                       takePending), Store has Set, Release, propagate, del, reconcilePending and
--                       refresh over Drain.Memory. Wire is one field of the hash, as steps of the one
--                       instance that sets it and of Redis, where a deletion may fail,
--                       and Agree, Outcome, Taken, Retried, Propagated, Released, Overtaken, Expired
--                       and Alone say what a drain comes to under them.
-- Blocklist             blocklist/store.go. Set, Release, SetBlockedDomains, reload, and the union of
--                       the configured and the stored entries that is applied.
-- Relay.Retry           relay/middleware/retry.go. Budget has the retry budget, Pool what an attempt
--                       may select, Loop the loop of attempts.
-- Relay.Sink            relay/scoresink.go. Add and the collapse of signals to one a key.
-- HealthCheck.Leader    healthcheck/leader.go. tryAcquire, acquire, renew, release, fallBack and
--                       Stop, and Fleet the replicas as steps: a replica that stopped keeps what it
--                       believed.
-- Qos.Subscription      qos/subscription.go. Window has dupWindow, Registry the tables of a connection
--                       and the steps on them (touch, grade, markClosed, completeReplay, forget,
--                       answered, track), Frames TranslateClientFrame and TranslateEndpointFrame with
--                       batches, Rebind has Replay and Reissue, and Text the id of a replay and
--                       IsWriteMethod of domain/payload.go. The classifier, what gjson reads and
--                       maphash are an interface.
-- Domain.Owner          domain/owner.go. Owner, Party, PartyOfOperator, and Affiliates with Add
--                       and Contains. The operator and the supplier of an address are parameters.
-- AutoDrain             autodrain/engine.go. Decide has find, decide, liveAuto and liveAutoFleet,
--                       Evaluate has reconcile, emit and Evaluate, Clients has OnClientResult and
--                       clientShare. The drain store is an interface, DrainStore, that
--                       Drain.Memory fills in AutoDrain.Limits.
-- Reputation.Selector   reputation/selector.go. classify, Select as pass (the loop over the pool)
--                       and cascade (the choice of the tier), and TopTierCandidates in Top. The
--                       scores and the draws of rand.IntN are functions that the theorems take as
--                       any.
-- Qos.Consensus         qos/blockheight.go and qos/blockconsensus.go. Anchor has partyAnchor, Ops
--                       has AddObservation, computePerceived, applyExternalFloor,
--                       SetExternalFloor, recordRateSampleLocked and Reset. EndpointAddr.Party is
--                       a parameter.
-- Base                  Boolean tests, keys, lists measured by native numbers, and Go's maps as
--                       association lists (Dict, Nested).
--
-- How the parts interact: an auto drain goes through the drain store, so a decision's effect is
-- stated on Drain.Memory.drained, which selection reads; the alternative that a decision needs is
-- read with the affiliates of Domain.Owner, which the retry loop reads too, so that it leaves an
-- operator that failed; a drain of Drain.Redis is stored in Drain.Memory, and a snapshot of Redis
-- is merged there; the party by which the consensus counts votes is Domain.Owner's.
--
-- Conventions. Times and durations are nanoseconds, as natural numbers; an operation reads the
-- clock once and takes it as `now`. The zero time is `none`, or 0 where the code only compares it
-- with now. Heights are uint64, and the saturating sum and product of qos/blockheight.go are
-- written out. Failure rates of the breaker are in ten-thousandths, and rates of the auto-drain
-- engine are fractions that are compared exactly, so that no comparison rounds. Redis, the backend
-- of the block list and the handler that a retry calls are interfaces that the theorems take as
-- any; that a call of Redis succeeds is a hypothesis where it is needed. A lock that an operation
-- holds throughout makes a history a sequence of operations. What goes on in Redis is a step
-- relation in which every order of the commands is allowed: Drain.Redis.Wire for the drains of one
-- instance, HealthCheck.Leader.Fleet for the replicas that share the leader's lock. Of several
-- instances that set one drain nothing is proved. A loop is structural recursion on a list or a
-- number. The loop of attempts recurs on the number of attempts left, which the configuration
-- sets, so no fuel is added. Iteration over a Go map takes the order of the association list, and
-- the theorems hold for every such order.
--
-- Not modelled: log lines, metrics and the trail of a request's attempts; Redis beyond the
-- commands that these parts send, and the tickers that start a poll or a flush; the floating-point
-- block rate and what is projected from it (BlocksIn, AnswerLag, BeyondHead, StateLag); the other
-- counters of the auto-drain engine and the window that raises its candidates, which are an
-- argument of Evaluate; the selector's operator cap and latency tie-break; the wire protocol, the
-- sessions, the plugins of the chains, the accessors of the subscriptions, the router, the
-- configuration and the metrics.
pub mod Base
pub mod Relay
pub mod CircuitBreaker
pub mod MethodBlock
pub mod Domain
pub mod Blocklist
pub mod Drain
pub mod HealthCheck
pub mod AutoDrain
pub mod Reputation
pub mod Qos
