-- ===== src/Relay/Sink/Collapse.antt =====
-- relay/scoresink.go: what Add leaves of a key's signals.
use sage.Base.{
  ℕ, ◌≤◌, ◌<◌, ◌≡◌, refl, sym, ap, ◌∙◌, ◌⊎◌, true, false, Option, none, some, List, [], ◌∷◌, inl,
  inr, max, ltb, if◌then◌else◌, arith, ltb→lt, lt→ltb, Bool-cases, ◌==◌, ==_iff,
}
use sage.Base.Dict.{lookup, insert, lookup-insert}
use sage.Relay.Sink.{Signal, SinkKey, sink_key, ScoreSink, severity_rank, worse, add_to, add}

abbrev pub Signals : Type 0
Signals = List (SinkKey × Signal)

unfoldable pub add_all : ScoreSink → Signals → ScoreSink
unfolding add
add_all s [] = s
add_all s ((k, sig) ∷ sigs) = add_all (add s k sig).0 sigs

-- The signals of one key, in their order.
unfoldable pub signals_of : SinkKey → Signals → List Signal
signals_of k [] = []
signals_of k ((j, sig) ∷ sigs) = let rest = signals_of k sigs in if j == k then sig ∷ rest else rest

-- The highest severity, and the highest latency, of a list.
abbrev pub worst_rank : List Signal → ℕ
worst_rank [] = 0
worst_rank (x ∷ xs) = max (severity_rank x.type) (worst_rank xs)

abbrev pub longest : List Signal → ℕ
longest [] = 0
longest (x ∷ xs) = max x.latency (longest xs)

-- The first signal of a severity.
abbrev pub first_of_rank : ℕ → List Signal → Option Signal
first_of_rank n [] = none
first_of_rank n (x ∷ xs) =
    let rest = first_of_rank n xs in if ltb (severity_rank x.type) n then rest else some x

abbrev pub with_latency : ℕ → Option Signal → Option Signal
with_latency n none = none
with_latency n (some sig) = some (record sig { latency = n })

-- The first of the worst signals, with the longest latency of all.
abbrev pub collapsed : List Signal → Option Signal
collapsed sigs = with_latency (longest sigs) (first_of_rank (worst_rank sigs) sigs)

abbrev pub from : Option Signal → List Signal → List Signal
from none sigs = sigs
from (some sig) sigs = sig ∷ sigs

abbrev pick : ℕ → ℕ → List Signal → Option Signal
pick n l sigs = with_latency l (first_of_rank n sigs)

-- The latency of the head does not matter to a pick.
pick_head :
    (n l m : ℕ) (x : Signal) (sigs : List Signal)
    → pick n l (x ∷ sigs) ≡ pick n l (record x { latency = m } ∷ sigs)
pick_head n l m x sigs = elim (Bool-cases (ltb (severity_rank x.type) n)) [
  | inl e ↦ rw e refl
  | inr e ↦ rw e refl
]

-- A signal that is no worse than the one before it is skipped.
pick_no_worse :
    (n l : ℕ) (cur sig : Signal) (sigs : List Signal)
    → severity_rank sig.type ≤ severity_rank cur.type
    → pick n l (cur ∷ sig ∷ sigs) ≡ pick n l (cur ∷ sigs)
pick_no_worse n l cur sig sigs h = elim (Bool-cases (ltb (severity_rank cur.type) n)) [
  | inr e ↦ rw e refl
  | inl e ↦
      let below = ltb→lt (severity_rank cur.type) n e in
      let skip : ltb (severity_rank sig.type) n ≡ true =
        lt→ltb (severity_rank sig.type) n (omega arith) in
      rw (e, skip) refl
]

pick_below :
    (n l : ℕ) (cur : Signal) (sigs : List Signal)
    → severity_rank cur.type < n
    → pick n l (cur ∷ sigs) ≡ pick n l sigs
pick_below n l cur sigs h =
    let skip : ltb (severity_rank cur.type) n ≡ true = lt→ltb (severity_rank cur.type) n h in
    rw skip refl

collapsed-pick :
    (n l : ℕ) (sigs : List Signal)
    → worst_rank sigs ≡ n
    → longest sigs ≡ l
    → collapsed sigs ≡ pick n l sigs
collapsed-pick n l sigs p q = ap (λ k. pick k (longest sigs) sigs) p ∙ ap (λ m. pick n m sigs) q

collapsed_up :
    (cur sig : Signal) (sigs : List Signal)
    → severity_rank cur.type < severity_rank sig.type
    → collapsed (cur ∷ sig ∷ sigs)
      ≡ collapsed (record sig { latency = max sig.latency cur.latency } ∷ sigs)
collapsed_up cur sig sigs h =
    let n = max (severity_rank sig.type) (worst_rank sigs) in
    let m = max sig.latency cur.latency in
    let l = max m (longest sigs) in
    collapsed-pick n l (cur ∷ sig ∷ sigs) (omega arith) (omega arith)
    ∙ pick_below n l cur (sig ∷ sigs) (omega arith)
    ∙ pick_head n l m sig sigs

collapsed_kept :
    (cur sig : Signal) (sigs : List Signal)
    → severity_rank sig.type ≤ severity_rank cur.type
    → collapsed (cur ∷ sig ∷ sigs)
      ≡ collapsed (record cur { latency = max cur.latency sig.latency } ∷ sigs)
collapsed_kept cur sig sigs h =
    let n = max (severity_rank cur.type) (worst_rank sigs) in
    let m = max cur.latency sig.latency in
    let l = max m (longest sigs) in
    collapsed-pick n l (cur ∷ sig ∷ sigs) (omega arith) (omega arith)
    ∙ pick_no_worse n l cur sig sigs h
    ∙ pick_head n l m cur sigs

worse_cases :
    (cur sig : Signal)
    → ((severity_rank cur.type < severity_rank sig.type)
        × (worse (some cur) sig ≡ record sig { latency = max sig.latency cur.latency }))
      ⊎ ((severity_rank sig.type ≤ severity_rank cur.type)
          × (worse (some cur) sig ≡ record cur { latency = max cur.latency sig.latency }))
worse_cases cur sig = elim (Bool-cases (ltb (severity_rank cur.type) (severity_rank sig.type))) [
  | inl e ↦ inl (ltb→lt (severity_rank cur.type) (severity_rank sig.type) e, rw e refl)
  | inr e ↦ elim (Bool-cases (ltb cur.latency sig.latency)) [
    | inl f ↦ inr (ground (arith, e), rw (e, f) (ground (arith, f)))
    | inr f ↦ inr (ground (arith, e), rw (e, f) (ground (arith, f)))
  ]
]

collapsed-worse :
    (o : Option Signal) (sig : Signal) (sigs : List Signal)
    → collapsed (from o (sig ∷ sigs)) ≡ collapsed (worse o sig ∷ sigs)
collapsed-worse none sig sigs = refl
collapsed-worse (some cur) sig sigs = elim (worse_cases cur sig) [
  | inl (up, e) ↦ collapsed_up cur sig sigs up ∙ ap (λ x. collapsed (x ∷ sigs)) (sym e)
  | inr (down, e) ↦ collapsed_kept cur sig sigs down ∙ ap (λ x. collapsed (x ∷ sigs)) (sym e)
]

collapsed-one : (sig : Signal) → collapsed (sig ∷ []) ≡ some sig
collapsed-one sig =
    let top : ltb (severity_rank sig.type) (max (severity_rank sig.type) 0) ≡ false =
      ground arith in
    let long : max sig.latency 0 ≡ sig.latency = omega arith in rw (top, long) refl

collapsed_self : (o : Option Signal) → o ≡ collapsed (from o [])
collapsed_self none = refl
collapsed_self (some sig) = sym (collapsed-one sig)

pub add_unflushed :
    (s : ScoreSink) (k : SinkKey) (sig : Signal)
    → s.late ≡ none
    → (add s k sig).0 ≡ record s { worst = insert k (worse (lookup k s.worst) sig) s.worst }
unfolding add
add_unflushed s k sig p = ap (λ o. (add_to o s k sig).0) p

-- One signal is left of each key: the first of its worst signals, with the longest latency of them all,
-- whatever came in between for other keys.
pub lookup-add_all :
    (s : ScoreSink) (k : SinkKey) (sigs : Signals)
    → s.late ≡ none
    → lookup k (add_all s sigs).worst ≡ collapsed (from (lookup k s.worst) (signals_of k sigs))
unfolding add_all signals_of
lookup-add_all s k [] p = collapsed_self (lookup k s.worst)
lookup-add_all s k ((j, sig) ∷ sigs) p =
    let w = worse (lookup j s.worst) sig in
    let s' : ScoreSink = record s { worst = insert j w s.worst } in
    let first = ap (λ t. lookup k (add_all t sigs).worst) (add_unflushed s j sig p) in
    let ih = lookup-add_all s' k sigs p in
    let law = lookup-insert j k w s.worst in
    elim (Bool-cases (j == k)) [
      | inr e ↦
          let same : lookup k s'.worst ≡ lookup k s.worst = ground (arith, law, e) in
          rw e (first ∙ ih ∙ ap (λ o. collapsed (from o (signals_of k sigs))) same)
      | inl e ↦
          let path : j ≡ k = (==_iff j k).0 e in
          let same : lookup k s'.worst ≡ some (worse (lookup k s.worst) sig) =
            ground (arith, law, e) ∙ ap (λ i. some (worse (lookup i s.worst) sig)) path in
          rw e (
            first
            ∙ ih
            ∙ ap (λ o. collapsed (from o (signals_of k sigs))) same
            ∙ sym (collapsed-worse (lookup k s.worst) sig (signals_of k sigs)))
    ]
