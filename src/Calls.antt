-- ===== src/Calls.antt =====
-- Voice calls: WebRTCProvider of src/contexts/WebRTCContext.tsx. An RTCPeerConnection, a WebSocket, a
-- timer and a handler that waits at an `await` are numbers; what the browser does with them is an
-- event. The updater of setPeers runs as it is queued, and peersRef is renewed by an effect after a
-- render. Profiles on the data channel, levels, volumes, speaking and the presence are left out.
pub mod Recovery
pub mod Signaling
pub mod Schedule
pub mod Swap
pub mod Tracked
pub mod Newcomer
pub mod Recovering
pub mod Left
pub mod Resumed
pub mod Closed
pub mod Again
pub mod Leaks
pub mod Tied
pub mod Firing
pub mod Handled
pub mod Recovered
mod Tests
use cordia.Base.{
  Bool, Dict, List, Option, Str, [], contains, false, if◌then◌else◌, keep, lookup, nat_eq, none,
  not, put, remove, some, str_eq, true, ℕ, ◌++◌, ◌+◌, ◌==◌, ◌∷◌,
}

-- iceConnectionState; a connection that is closed has none.
pub data IceState : Type 0 where
  fresh checking connected completed disconnected failed : IceState

-- An RTCPeerConnection that is open: the peer that its handlers name, and whether it has the local
-- audio track.
pub record Link : Type 0 where
  pub remote_peer : Str
  pub ice : IceState
  pub has_track : Bool

pub record PeerInfo : Type 0 where
  pub peer_id : Str
  pub user_id : Str
  pub connection : ℕ
  pub has_stream : Bool

-- The timers of peerRecoveryRef's entry.
pub record RecoveryTimers : Type 0 where
  pub disconnect_timer : Option ℕ
  pub failed_timer : Option ℕ

pub data Timer : Type 0 where
  after_disconnect after_failure : Str → Timer
  reconnect : Timer

pub data SocketState : Type 0 where
  connecting opened : SocketState

pub data Signal : Type 0 where
  register unregister : Signal
  offer_to answer_to : Str → Signal

-- What a new connection is for: an offer, with the peers that the loop has left, or an answer.
pub data Purpose : Type 0 where
  offering : List (Str × Str) → Purpose
  answering : Purpose

-- A handler at its `await`: the rebuild of the audio, with whether there was a stream before, the wait for another's rebuild, the warm-up with
-- createOffer, createAnswer, the warm-up of a restart, the statistics, and ensureAudioInitialized.
pub data Job : Type 0 where
  rebuilds : Bool → Str → Str → ℕ → Purpose → Job
  waits : Str → Str → ℕ → Purpose → Job
  offers : Str → List (Str × Str) → Job
  answers restarts asks_path : Str → Job
  joins : Str → Str → Str → Str → Job

-- `links` are the connections that are open, `armed` the timers that may fire, `stream` the local
-- stream, with whether its track is live, and `meters` counts the InputLevelMeters that were started
-- for a rebuild. `delivered` tells which connection was given an answer or a candidate.
pub record Call : Type 0 where
  pub peers : Dict Str PeerInfo
  pub peers_ref : Dict Str PeerInfo
  pub cleaned_peers : List Str
  pub links : Dict ℕ Link
  pub next_link : ℕ
  pub recovery : Dict Str RecoveryTimers
  pub restarted : List Str
  pub armed : Dict ℕ Timer
  pub next_timer : ℕ
  pub room : Option Str
  pub house : Option Str
  pub peer_id : Option Str
  pub user_id : Option Str
  pub is_in_voice : Bool
  pub shown_in_voice : Bool
  pub socket : Option ℕ
  pub sockets : Dict ℕ SocketState
  pub next_socket : ℕ
  pub sent : List Signal
  pub delivered : List (ℕ × Str)
  pub stream : Option Bool
  pub meters : ℕ
  pub is_rebuilding : Bool
  pub jobs : Dict ℕ Job
  pub next_job : ℕ

unfoldable pub await : Job → Call → Call
await job s = record s { jobs = put s.next_job job s.jobs; next_job = s.next_job + 1 }

-- clearTimeout, if there is a timer
abbrev pub clear_timer : Option ℕ → Dict ℕ Timer → Dict ℕ Timer
clear_timer none armed = armed
clear_timer (some n) armed = remove n armed

-- clearRecoveryTimers
unfoldable pub drop_recovery : Option RecoveryTimers → Str → Call → Call
drop_recovery none peer s = s
drop_recovery (some entry) peer s = record s {
  armed = clear_timer entry.failed_timer (clear_timer entry.disconnect_timer s.armed);
  recovery = remove peer s.recovery;
}

unfoldable pub clear_recovery_timers : Str → Call → Call
clear_recovery_timers peer s = drop_recovery (lookup peer s.recovery) peer s

-- set.delete
abbrev pub without : Str → List Str → List Str
without peer set = keep (λ other. not (other == peer)) set

unfoldable pub cleanup_peer_connection : Str → PeerInfo → Call → Call
cleanup_peer_connection peer info s =
    let t = clear_recovery_timers peer s in
    if contains s.cleaned_peers peer then s else record t {
      cleaned_peers = s.cleaned_peers ++ peer ∷ [];
      restarted = without peer s.restarted;
      links = remove info.connection s.links;
    }

unfoldable pub disconnect : Option PeerInfo → Str → Call → Call
disconnect none peer s = s
disconnect (some info) peer s =
    let t = cleanup_peer_connection peer info s in record t { peers = remove peer t.peers }

unfoldable pub handle_peer_disconnect : Str → Call → Call
handle_peer_disconnect peer s = disconnect (lookup peer s.peers) peer s

unfoldable pub find_peer_by_user_id : Str → Dict Str PeerInfo → Option PeerInfo
find_peer_by_user_id user [] = none
find_peer_by_user_id user ((peer, info) ∷ peers) =
    if info.user_id == user then some info else find_peer_by_user_id user peers

-- wsRef.current is there and open.
abbrev pub is_open : Option SocketState → Bool
is_open (some opened) = true
is_open _ = false

abbrev pub socket_state : Option ℕ → Dict ℕ SocketState → Option SocketState
socket_state none sockets = none
socket_state (some k) sockets = lookup k sockets

unfoldable pub signal : Signal → Call → Call
signal message s =
    if is_open (socket_state s.socket s.sockets) then record s { sent = message ∷ s.sent } else s
