-- ===== src/Blocklist/Tests.antt =====
-- blocklist/store.go: calls at concrete inputs, with a protocol that rejects one RPC type, and a backend
-- that holds one entry of a peer and takes no write.
use sage.Base.{
  ◌≡◌, refl, String, Bool, true, false, some, List, [], ◌∷◌, if◌then◌else◌, inl, inr, string_key,
}
use sage.Base.Dict.{lookup, insert, remove, restrict}
use sage.Blocklist.{BlockedDomain, Entry, Manager, Backend, set, release, reload, same_types}
use sage.Blocklist.Sync.{InSync, Call, sets, releases, polls, run, run-InSync}

abbrev takes : List BlockedDomain → Bool
takes [] = true
takes (x ∷ xs) = if same_types x.rpc_types ("unknown" ∷ []) then false else takes xs

abbrev of_peer : Entry
of_peer = record { domain = "peer.io"; rpc_types = []; reason = ""; since = 4 }

abbrev peer : Backend Bool
peer = record {
  save = λ b e. (b, false);
  delete = λ b d. (b, false);
  load = λ b. some (of_peer ∷ []);
}

abbrev as_is : String → String
as_is s = s

abbrev configured : List BlockedDomain
configured = record { domain = "bad.io"; rpc_types = [] } ∷ []

abbrev fresh : Manager
fresh = record { base = configured; entries = []; applied = configured }

fresh-InSync : InSync fresh
unfolding lookup
fresh-InSync = record {
  unique = tt;
  exact = λ x. (λ h. inl h, λ h. elim h [ inl b ↦ b | inr q ↦ absurd (cc q.2) ]);
}

abbrev mistyped : Entry
mistyped = record { domain = "slow.io"; rpc_types = "unknown" ∷ []; reason = ""; since = 0 }

abbrev calls : List (Call takes peer as_is)
calls =
    polls ∷ sets mistyped 9 ∷ sets (record mistyped { rpc_types = [] }) 10 ∷ releases "peer.io" ∷ []

applied_after_calls :
    (run takes peer as_is (fresh, true) calls).0.applied
    ≡ record { domain = "bad.io"; rpc_types = [] }
      ∷ record { domain = "slow.io"; rpc_types = [] }
      ∷ []
unfolding run set release reload lookup insert remove restrict
applied_after_calls = refl

run-InSync_example : InSync (run takes peer as_is (fresh, true) calls).0
run-InSync_example = run-InSync takes peer as_is (fresh, true) calls fresh-InSync
