-- ===== src/Swarm/Coordinator.antt =====
-- src/lib/swarm/swarmCoordinator.ts: requests for the peers of a file, each a promise with a
-- timeout. Promises and their timers are numbered alike; a timer knows the key that it deletes.
-- The events that announce, unannounce and report health only pass their arguments on.
pub mod Settled
mod Tests
use cordia.Base.{
  Dict, List, Option, Str, [], if◌then◌else◌, lookup, nat_eq, none, put, remove, some, str_eq, trim,
  truthy, units, ℕ, ◌&&◌, ◌++◌, ◌+◌, ◌∷◌,
}

pub data Settlement : Type 0 where
  resolved : List Str → Settlement
  superseded timed_out stopped : Settlement

-- `pending` and `timers` hold promise numbers; `settled` the settled promises, the last one first.
pub record SwarmCoordinator : Type 0 where
  pub pending : Dict Str ℕ
  pub timers : Dict ℕ Str
  pub settled : List (ℕ × Settlement)
  pub next : ℕ

unfoldable pub new_coordinator : SwarmCoordinator
new_coordinator = record { pending = []; timers = []; settled = []; next = 0 }

unfoldable pub key : Str → Str → Str
key signing_pubkey sha256 = signing_pubkey ++ (units "::" ++ sha256)

-- clearTimeout, pending.delete(k), and the promise's resolve or reject
unfoldable pub settle : Str → ℕ → Settlement → SwarmCoordinator → SwarmCoordinator
settle k n how s = record s {
  pending = remove k s.pending;
  timers = remove n s.timers;
  settled = (n, how) ∷ s.settled;
}

unfoldable pub settle_pending : Str → Option ℕ → Settlement → SwarmCoordinator → SwarmCoordinator
settle_pending k none how s = s
settle_pending k (some n) how s = settle k n how s

unfoldable pub ask : Str → SwarmCoordinator → SwarmCoordinator
ask k s = record s {
  pending = put k s.next s.pending;
  timers = put s.next k s.timers;
  next = s.next + 1;
}

-- requestPeers: an older request for the same file is superseded.
unfoldable pub request_peers : Str → Str → SwarmCoordinator → SwarmCoordinator
request_peers signing_pubkey sha256 s =
    let k = key signing_pubkey sha256 in ask k (settle_pending k (lookup k s.pending) superseded s)

-- onPeerListIncoming
unfoldable pub on_peer_list : Str → Str → List Str → SwarmCoordinator → SwarmCoordinator
on_peer_list signing_pubkey sha256 peers s =
    let k = key (trim signing_pubkey) (trim sha256) in
    if truthy (trim signing_pubkey) && truthy (trim sha256)
    then settle_pending k (lookup k s.pending) (resolved peers) s
    else s

unfoldable pub fire : ℕ → Option Str → SwarmCoordinator → SwarmCoordinator
fire n none s = s
fire n (some k) s = settle k n timed_out s

-- The timer of promise `n` fires, if it is armed.
unfoldable pub on_timeout : ℕ → SwarmCoordinator → SwarmCoordinator
on_timeout n s = fire n (lookup n s.timers) s

-- The loop of `stop`.
unfoldable pub stop_each : Dict Str ℕ → SwarmCoordinator → SwarmCoordinator
stop_each [] s = s
stop_each ((k, n) ∷ pending) s = stop_each pending (settle k n stopped s)

unfoldable pub stop : SwarmCoordinator → SwarmCoordinator
stop s = stop_each s.pending s

pub data CoordinatorEvent : Type 0 where
  asked : Str → Str → CoordinatorEvent
  answered : Str → Str → List Str → CoordinatorEvent
  fired : ℕ → CoordinatorEvent
  shut : CoordinatorEvent

unfoldable pub coordinate : CoordinatorEvent → SwarmCoordinator → SwarmCoordinator
coordinate (asked signing_pubkey sha256) s = request_peers signing_pubkey sha256 s
coordinate (answered signing_pubkey sha256 peers) s = on_peer_list signing_pubkey sha256 peers s
coordinate (fired n) s = on_timeout n s
coordinate shut s = stop s

unfoldable pub coordinate_all : List CoordinatorEvent → SwarmCoordinator → SwarmCoordinator
coordinate_all [] s = s
coordinate_all (e ∷ es) s = coordinate_all es (coordinate e s)
