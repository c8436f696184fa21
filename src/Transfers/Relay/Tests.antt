-- ===== src/Transfers/Relay/Tests.antt =====
-- The relay at an input: a file of three bytes.
use mathlib.Core.List.{flatten}
use cordia.Base.{
  Bool, List, Str, [], false, lookup, nat_eq, put, refl, remove, some, str_eq, true, units, ℕ, ◌∷◌,
  ◌≡◌,
}
use cordia.Transfers.Stream.{Bytes, run, on_meta}
use cordia.Transfers.Stream.Tests.{short, short_status}
use cordia.Transfers.Upload.{
  Subscriber, new_session, wants_read, wants_block, store, burst, complete, serve, serve_all,
  least_offset, evicted_bytes, evict, deliver, fail_all, head, read_ends, subscribe, UploadEvent,
  opened, runs, read, pump, resume_read, expire, restart, upload_step, upload_run,
}
use cordia.Transfers.Relay.{relay-disk}

abbrev file : Bytes
file = 1 ∷ 2 ∷ 3 ∷ []

abbrev has_room : Str → ℕ → Bool
has_room id left = true

-- Two bytes, then the last one, then the end.
abbrev schedule : List UploadEvent
schedule =
    opened (units "r")
    ∷ runs has_room
    ∷ read has_room (some (1 ∷ 2 ∷ []))
    ∷ runs has_room
    ∷ read has_room (some (3 ∷ []))
    ∷ runs has_room
    ∷ read has_room (some [])
    ∷ []

-- The subscriber when it is told `done`.
abbrev served : Subscriber
served = record {
  request_id = units "r";
  to_user_id = units "ann";
  channel_open = true;
  ready = true;
  flow_paused = false;
  next_offset = 3;
  done = true;
  sent = file;
}

relay-disk_example : (run short (on_meta 3)).disk ≡ file
unfolding new_session wants_read wants_block store burst complete serve serve_all least_offset
    evicted_bytes evict deliver fail_all head read_ends subscribe pump resume_read expire restart
    upload_step upload_run lookup put remove flatten
relay-disk_example =
    relay-disk file (units "a") (units "f") (units "h") (units "r") (units "ann") schedule 0 served
      3 short (tt, (tt, (refl, (tt, (refl, (tt, (refl, tt))))))) refl refl refl short_status
