-- ===== src/Transfers/Upload/Tests.antt =====
-- Concrete runs of an upload session.
use cordia.Base.{
  Bool, List, Str, [], arith, lookup, map, nat_eq, put, refl, remove, some, str_eq, true, units, ℕ,
  ◌∷◌, ◌≡◌,
}
use cordia.Transfers.Stream.{Bytes}
use cordia.Transfers.Upload.{
  UploadSession, new_session, wants_read, wants_block, store, burst, complete, serve, serve_all,
  least_offset, evicted_bytes, evict, deliver, fail_all, head, read_ends, subscribe, UploadEvent,
  join, opened, runs, read, pump, resume_read, expire, restart, upload_step, upload_run,
}
use cordia.Transfers.Upload.Faithful.{upload_run-IsFaithful}
use cordia.Transfers.Upload.Sent.{IsFaithful}
use cordia.Transfers.Upload.Starved.{IsStarved, upload_run-IsStarved}

abbrev file : Bytes
file = 1 ∷ 2 ∷ 3 ∷ []

start : UploadSession
unfolding new_session
start = new_session (units "a") (units "f") (units "h") 3 (units "r") (units "ann")

abbrev has_room : Str → ℕ → Bool
has_room id left = true

-- Two bytes, then the last one, then the end.
abbrev schedule : List UploadEvent
schedule =
    opened (units "r")
    ∷ runs has_room
    ∷ read has_room (some (1 ∷ 2 ∷ []))
    ∷ runs has_room
    ∷ read has_room (some (3 ∷ []))
    ∷ runs has_room
    ∷ read has_room (some [])
    ∷ []

play : List UploadEvent → UploadSession
unfolding wants_read wants_block store burst complete serve serve_all least_offset evicted_bytes
    evict deliver fail_all head read_ends subscribe pump resume_read expire restart upload_step
    upload_run lookup put remove
play es = upload_run es start

-- The subscriber is sent the whole file and told `done`.
play_sent : map (λ sub. sub.sent) (play schedule).finished ≡ file ∷ []
unfolding play start
play_sent = refl

upload_run-IsFaithful_example : IsFaithful file (upload_run schedule start)
unfolding start new_session wants_read wants_block store burst complete serve serve_all least_offset
    evicted_bytes evict deliver fail_all head read_ends subscribe pump resume_read expire restart
    upload_step upload_run lookup put remove
upload_run-IsFaithful_example =
    upload_run-IsFaithful file schedule (units "a") (units "f") (units "h") (units "r")
      (units "ann") (tt, (tt, (refl, (tt, (refl, (tt, (refl, tt)))))))

-- After the first block is sent and evicted, a second request joins and opens.
abbrev late : List UploadEvent
late =
    opened (units "r")
    ∷ runs has_room
    ∷ read has_room (some (1 ∷ 2 ∷ []))
    ∷ join (units "q") (units "bob")
    ∷ opened (units "q")
    ∷ []

late-IsStarved : IsStarved (units "q") 0 [] (play late)
unfolding play start
late-IsStarved = record {
  short = omega arith;
  below = omega arith;
  absent = refl;
  subs = (λ e. absurd (ground (arith, e)), (λ e. (refl, refl, refl), tt));
  unfinished = tt;
}

upload_run-IsStarved_example :
    IsStarved (units "q") 0 [] (upload_run (runs has_room ∷ []) (play late))
upload_run-IsStarved_example =
    upload_run-IsStarved (units "q") 0 [] (runs has_room ∷ []) (play late) (tt, tt) late-IsStarved
