-- ===== src/Drain/Redis/Released.antt =====
-- drain/redis.go: what finishWrite's compensating deletion is for, in every interleaving.
use sage.Base.{
  ℕ, suc, ◌-◌, ◌<◌, ◌≡◌, refl, ap, ◌⊎◌, inl, inr, true, false, Option, none, some, List, [], ◌∷◌,
  ◌++◌, arith, All-append, length-append,
}
use mathlib.Core.Path.{subst}
use sage.Drain.{Entry}
use sage.Drain.Redis.{KeyState, no_entry, WriteResult, written}
use sage.Drain.Redis.Track.{state, begin_set, begin_release, take_pending}
use sage.Drain.Redis.Wire.{
  Write, Wire, quiet_wire, after_set, after_release, after_finish, Step, sets, releases, lands,
  finishes, lapses, deletes, fails_to_delete, cleared, retries, expires, Reach, here, next,
}
use sage.Drain.Redis.Agree.{
  Counts, Released, All-middle, All-weaken, All-replace, All-take_out, length-middle, Counts-forget,
  Released-forget,
}
use sage.Drain.Redis.Outcome.{take_pending_cases, finish_write-released, Counts-finish}

-- A write that Redis has applied and that has not ended.
abbrev HasLanded : List Write → Type 0
HasLanded [] = ⊥
HasLanded (x ∷ ws) = (x.landed ≡ true) ⊎ HasLanded ws

HasLanded-middle :
    (before : List Write) (x : Write) (after : List Write)
    → x.landed ≡ true
    → HasLanded (before ++ x ∷ after)
HasLanded-middle [] x after h = inl h
HasLanded-middle (y ∷ before) x after h = inr (HasLanded-middle before x after h)

-- The field is gone, or something that can delete it is on its way, or the deletion failed.
abbrev Clears : Wire → Type 0
Clears w = (w.field ≡ none) ⊎ (0 < w.deletes) ⊎ HasLanded w.writes ⊎ (w.delete_failed ≡ true)

record Inv (w : Wire) : Type 0 where
  pub counts : Counts (state w.tracked) w.writes
  pub released : w.decided ≡ none → Released (state w.tracked) w.writes
  pub clears : w.decided ≡ none → Clears w

sets-Inv : (w : Wire) (e : Entry) → Inv w → Inv (after_set w e)
unfolding begin_set
sets-Inv w e v = record {
  counts = record {
    counted = omega (
      arith,
      v.counts.counted,
      length-append w.writes
          (record { entry = e; gen = suc (state w.tracked).gen; landed = false } ∷ []),
    );
    given =
        All-append _ w.writes _ (All-weaken (λ x h. omega arith) w.writes v.counts.given)
          (omega arith, tt);
  };
  released = λ h. cc;
  clears = λ h. cc;
}

releases-Inv : (w : Wire) → Inv w → Inv (after_release w)
unfolding begin_release
releases-Inv w v =
    let st : KeyState = record (state w.tracked) {
      gen = suc (state w.tracked).gen;
      released = true;
      pending = false;
      entry = no_entry;
    } in
    let c : Counts st w.writes = record {
      counted = v.counts.counted;
      given = All-weaken (λ x h. omega arith) w.writes v.counts.given;
    } in
    record {
      counts = Counts-forget st w.writes c;
      released = λ h. Released-forget st w.writes c (record {
        idle = refl;
        marked = All-weaken (λ x h. (refl, omega arith)) w.writes v.counts.given;
      });
      clears = λ h. inr (inl (omega arith));
    }

module _ (w : Wire) (before : List Write) (x : Write) (after : List Write)
    (e : w.writes ≡ before ++ x ∷ after) where
  count_there : Inv w → Counts (state w.tracked) (before ++ x ∷ after)
  count_there v = subst (Counts (state w.tracked)) e v.counts

  marks_there : Inv w → w.decided ≡ none → Released (state w.tracked) (before ++ x ∷ after)
  marks_there v h = subst (Released (state w.tracked)) e (v.released h)

  lands-Inv :
      Inv w
      → Inv
          (record w { field = some x.entry; writes = before ++ record x { landed = true } ∷ after })
  lands-Inv v =
      let c = count_there v in
      record {
        counts = record {
          counted = omega (
            arith,
            c.counted,
            length-middle before x after,
            length-middle before (record x { landed = true }) after,
          );
          given = All-replace _ before x _ after (λ p. p) c.given;
        };
        released = λ h.
            let r = marks_there v h in
            record { idle = r.idle; marked = All-replace _ before x _ after (λ p. p) r.marked };
        clears = λ h. inr (inr (inl (HasLanded-middle before _ after refl)));
      }

  finishes-Inv : (result : WriteResult) → Inv w → Inv (after_finish w before x after result)
  finishes-Inv result v =
      let c = count_there v in
      let left = Counts-finish w.tracked before after x result c in
      record {
        counts = left;
        released = λ h.
            let r = marks_there v h in
            let (b, p, a) = All-middle _ before x after r.marked in
            let (t, d) = finish_write-released w.tracked x.entry x.gen result p.0 p.1 in
            let k : KeyState = record (state w.tracked) {
              inflight = (state w.tracked).inflight - 1;
            } in
            rw t (
              Released-forget k (before ++ after)
                (record {
                  counted = omega (arith, c.counted, length-middle before x after);
                  given = All-take_out _ before x after c.given;
                })
                (record { idle = r.idle; marked = All-take_out _ before x after r.marked }));
        clears = λ h.
            let (b, p, a) = All-middle _ before x after (marks_there v h).marked in
            let (t, d) = finish_write-released w.tracked x.entry x.gen result p.0 p.1 in
            inr (inl (rw d (omega arith)));
      }

deletes-Inv :
    (w : Wire) (n : ℕ) → Inv w → Inv (record w { field = none; deletes = n; delete_failed = false })
deletes-Inv w n v = record { counts = v.counts; released = v.released; clears = λ h. inl refl }

fails_to_delete-Inv :
    (w : Wire) (n : ℕ) → Inv w → Inv (record w { deletes = n; delete_failed = true })
fails_to_delete-Inv w n v = record {
  counts = v.counts;
  released = v.released;
  clears = λ h. inr (inr (inr refl));
}

cleared-Inv : (w : Wire) → Inv w → Inv (record w { field = none })
cleared-Inv w v = record { counts = v.counts; released = v.released; clears = λ h. inl refl }

retries-Inv :
    (w : Wire) (st : KeyState) (now : ℕ) (after : Option KeyState) (e : Entry) (gen : ℕ)
    → w.tracked ≡ some st
    → take_pending st now ≡ (after, some (e, gen))
    → Inv w
    → Inv (record w {
      tracked = after;
      writes = w.writes ++ record { entry = e; gen = gen; landed = false } ∷ [];
    })
retries-Inv w st now after e gen t h v =
    let held : state w.tracked ≡ st = ap state t in
    elim (take_pending_cases st now h) [
      | inl (waiting, kept, taken) ↦
          let idle : w.decided ≡ none → ⊥ = λ q. cc ((v.released q).idle, held, waiting) in
          rw kept (record {
            counts = record {
              counted = omega (
                arith,
                v.counts.counted,
                ap KeyState.inflight held,
                length-append w.writes (record { entry = e; gen = gen; landed = false } ∷ []),
              );
              given =
                  All-append _ w.writes _
                    (All-weaken (λ x q. omega (arith, ap KeyState.gen held)) w.writes
                      v.counts.given)
                    (ground arith, tt);
            };
            released = λ q. absurd (idle q);
            clears = λ q. absurd (idle q);
          })
      | inr (inl (kept, none_taken)) ↦ absurd (cc none_taken)
      | inr (inr (dropped, none_taken)) ↦ absurd (cc none_taken)
    ]

expires-Inv :
    (w : Wire) (st : KeyState) (now : ℕ) (after : Option KeyState)
    → w.tracked ≡ some st
    → take_pending st now ≡ (after, none)
    → Inv w
    → Inv (record w { tracked = after })
expires-Inv w st now after t h v =
    let held : state w.tracked ≡ st = ap state t in
    elim (take_pending_cases st now h) [
      | inl (waiting, kept, taken) ↦ absurd (cc taken)
      | inr (inl (kept, none_taken)) ↦ let same : after ≡ w.tracked = cc (kept, t) in rw same v
      | inr (inr (dropped, none_taken)) ↦
          let c : Counts st w.writes = subst (λ k. Counts k w.writes) held v.counts in
          let idle : KeyState = record st { pending = false; entry = no_entry } in
          let c' : Counts idle w.writes = record { counted = c.counted; given = c.given } in
          rw dropped (record {
            counts = Counts-forget idle w.writes c';
            released = λ q.
                let r : Released st w.writes =
                  subst (λ k. Released k w.writes) held (v.released q) in
                Released-forget idle w.writes c' (record { idle = refl; marked = r.marked });
            clears = v.clears;
          })
    ]

Step-Inv : {w x : Wire} → Step w x → Inv w → Inv x
Step-Inv (sets w e) v = sets-Inv w e v
Step-Inv (releases w) v = releases-Inv w v
Step-Inv (lands w before x after e) v = lands-Inv w before x after e v
Step-Inv (finishes w before x after result e _) v = finishes-Inv w before x after e result v
Step-Inv (lapses w before x after e _) v = finishes-Inv w before x after e written v
Step-Inv (deletes w n _) v = deletes-Inv w n v
Step-Inv (fails_to_delete w n _) v = fails_to_delete-Inv w n v
Step-Inv (cleared w) v = cleared-Inv w v
Step-Inv (retries w st now after e gen t h) v = retries-Inv w st now after e gen t h v
Step-Inv (expires w st now after t h) v = expires-Inv w st now after t h v

Reach-Inv : {w x : Wire} → Reach w x → Inv w → Inv x
Reach-Inv (here w) v = v
Reach-Inv (next r s) v = Step-Inv s (Reach-Inv r v)

quiet_wire-Inv : Inv quiet_wire
quiet_wire-Inv = record {
  counts = record { counted = refl; given = tt };
  released = λ h. record { idle = refl; marked = tt };
  clears = λ h. inl refl;
}

-- However the calls of Set and Release on one instance, its retries, and what Redis applies interleave,
-- where no other instance sets the key: once the last decision was a release, nothing is on the wire
-- any more, and no deletion has failed since Redis last applied one or the last release sent one,
-- Redis does not hold the field.
pub release_wins :
    {w : Wire}
    → Reach quiet_wire w
    → w.decided ≡ none
    → w.writes ≡ []
    → w.deletes ≡ 0
    → w.delete_failed ≡ false
    → w.field ≡ none
release_wins {w} r d empty gone well = elim ((Reach-Inv r quiet_wire-Inv).clears d) [
  | inl h ↦ h
  | inr (inl h) ↦ absurd (omega arith)
  | inr (inr (inl h)) ↦ absurd (subst HasLanded empty h)
  | inr (inr (inr h)) ↦ absurd (cc (well, h))
]
