-- ===== src/Relay/Sink/Deliver.antt =====
-- relay/scoresink.go: what a batch, its flush and the signals after it make the flush function get.
use mathlib.Core.Path.{subst}
use sage.Base.{
  ℕ, ◌≡◌, refl, sym, ap, ◌∙◌, inl, inr, ◌&&◌, number_key, Option, none, some, List, [], ◌∷◌, ◌++◌,
  if◌then◌else◌, arith, Bool-cases, ◌==◌, ==_iff,
}
use sage.Base.Dict.{Dict, lookup, insert, IsUnique, insert-IsUnique}
use sage.Relay.Sink.{
  Signal, SinkKey, sink_key, ScoreSink, new, worse, Call, call, calls, add_to, add, flush,
}
use sage.Relay.Sink.Collapse.{
  Signals, add_all, signals_of, collapsed, add_unflushed, lookup-add_all,
}

-- The calls that a sequence of Adds makes.
unfoldable pub calls_of : ScoreSink → Signals → List Call
calls_of s [] = []
calls_of s ((k, sig) ∷ sigs) = let done = add s k sig in done.1 ++ calls_of done.0 sigs

-- A batch, its flush to `f`, and what its hedge arms add after that.
unfoldable pub batch : Signals → ℕ → Signals → List Call
unfolding calls_of add_all flush
batch sigs f late =
    let flushed = flush (add_all new sigs) f in
    calls_of new sigs ++ (flushed.1 ++ calls_of flushed.0 late)

-- The signals of one key that the function `f` gets.
unfoldable pub received : ℕ → SinkKey → List Call → List Signal
received f k [] = []
received f k (c ∷ cs) =
    let rest = received f k cs in if c.function == f && c.key == k then c.signal ∷ rest else rest

abbrev pub listed : Option Signal → List Signal
listed none = []
listed (some sig) = sig ∷ []

received-append :
    (f : ℕ) (k : SinkKey) (xs ys : List Call)
    → received f k (xs ++ ys) ≡ received f k xs ++ received f k ys
unfolding received
received-append f k [] ys = refl
received-append f k (c ∷ xs) ys = elim (Bool-cases (c.function == f && c.key == k)) [
  | inl e ↦ rw e (ap (λ l. c.signal ∷ l) (received-append f k xs ys))
  | inr e ↦ rw e (received-append f k xs ys)
]

received_own :
    (f : ℕ) (k j : SinkKey) (sig : Signal) (cs : List Call)
    → received f k (call f (j, sig) ∷ cs)
      ≡ (if j == k then sig ∷ received f k cs else received f k cs)
unfolding received
received_own f k j sig cs = ground arith

received-none :
    (f : ℕ) (k : SinkKey) (m : Dict SinkKey Signal)
    → lookup k m ≡ none
    → received f k (calls f m) ≡ []
unfolding received lookup
received-none f k [] h = refl
received-none f k ((j, sig) ∷ m) h =
    received_own f k j sig (calls f m) ∙ ground (arith, h, received-none f k m)

received-calls :
    (f : ℕ) (k : SinkKey) (m : Dict SinkKey Signal)
    → IsUnique m
    → received f k (calls f m) ≡ listed (lookup k m)
unfolding received lookup
received-calls f k [] u = refl
received-calls f k ((j, sig) ∷ m) u = elim (Bool-cases (j == k)) [
  | inl e ↦
      let path : j ≡ k = (==_iff j k).0 e in
      let none_left = received-none f k m (ap (λ i. lookup i m) (sym path) ∙ u.0) in
      received_own f k j sig (calls f m) ∙ ground (arith, e, none_left)
  | inr e ↦ received_own f k j sig (calls f m) ∙ ground (arith, e, received-calls f k m u.1)
]

add_all-IsUnique :
    (s : ScoreSink) (sigs : Signals)
    → s.late ≡ none
    → IsUnique s.worst
    → IsUnique (add_all s sigs).worst
unfolding add_all
add_all-IsUnique s [] p u = u
add_all-IsUnique s ((k, sig) ∷ sigs) p u =
    let s' : ScoreSink = record s { worst = insert k (worse (lookup k s.worst) sig) s.worst } in
    subst (λ t. IsUnique (add_all t sigs).worst) (sym (add_unflushed s k sig p))
      (add_all-IsUnique s' sigs p (insert-IsUnique k (worse (lookup k s.worst) sig) s.worst u))

-- Before the flush nothing is called.
calls_of-unflushed : (s : ScoreSink) (sigs : Signals) → s.late ≡ none → calls_of s sigs ≡ []
unfolding calls_of add
calls_of-unflushed s [] p = refl
calls_of-unflushed s ((k, sig) ∷ sigs) p =
    let s' : ScoreSink = record s { worst = insert k (worse (lookup k s.worst) sig) s.worst } in
    ap (λ o. (let done = add_to o s k sig in done.1 ++ calls_of done.0 sigs)) p
    ∙ calls_of-unflushed s' sigs p

calls_of-late :
    (s : ScoreSink) (f : ℕ) (k : SinkKey) (sigs : Signals)
    → s.late ≡ some f
    → received f k (calls_of s sigs) ≡ signals_of k sigs
unfolding calls_of received signals_of add
calls_of-late s f k [] p = refl
calls_of-late s f k ((j, sig) ∷ sigs) p =
    ap (λ o. received f k (let done = add_to o s j sig in done.1 ++ calls_of done.0 sigs)) p
    ∙ received_own f k j sig (calls_of s sigs)
    ∙ ground (arith, calls_of-late s f k sigs p)

-- No signal of a batch is lost, and none counts twice: of each endpoint and RPC type the flush function
-- gets one signal, the first of the worst with the longest latency of them all, if there was any, and
-- after it each signal that came after the flush, in order.
pub received-batch :
    (sigs : Signals) (f : ℕ) (late : Signals) (k : SinkKey)
    → received f k (batch sigs f late) ≡ listed (collapsed (signals_of k sigs)) ++ signals_of k late
unfolding batch flush lookup
received-batch sigs f late k =
    let m = (add_all new sigs).worst in
    let s : ScoreSink = record { worst = []; late = some f } in
    ap (λ l. received f k (l ++ (calls f m ++ calls_of s late))) (calls_of-unflushed new sigs refl)
    ∙ received-append f k (calls f m) (calls_of s late)
    ∙ ap (λ l. l ++ received f k (calls_of s late))
        (received-calls f k m (add_all-IsUnique new sigs refl tt))
    ∙ ap (λ l. listed (lookup k m) ++ l) (calls_of-late s f k late refl)
    ∙ ap (λ o. listed o ++ signals_of k late) (lookup-add_all new k sigs refl)
