-- ===== src/Transfers/Stream/Tests.antt =====
-- Runs of a download, and its theorems at an input.
use cordia.Base.{List, [], arith, false, nat_eq, refl, some, str_eq, true, ◌∷◌, ◌≡◌}
use cordia.Transfers.Stream.{
  StreamState, Download, transferring, completed, looping, Event, chunk, begun, round, done,
  written, finished, on_meta, run, step, turn, flow_pause, on_chunk, chunk_of, accept, pause, wake,
  start_writer, start_of, round_of, round_on, resume, when_empty, take_batch, fill, round_due,
  write_due, write_ends, stored, refused, finish_due, finish_ends, finish_of, return, cleanup, fail,
  on_done, done_of,
}
use cordia.Transfers.Stream.Content.{IsRight}
use cordia.Transfers.Stream.Schedule.{IsOrdered, run-IsRight}
use cordia.Transfers.Stream.Flow.{IsFluent}
use cordia.Transfers.Stream.Delivery.{run-IsFluent}
use cordia.Transfers.Stream.Drain.{finish_schedule, run-finish_schedule}

-- Three bytes in two chunks; the second comes while the first is being written.
abbrev pub short : List Event
short =
    begun true true
    ∷ chunk true (1 ∷ 2 ∷ [])
    ∷ round true
    ∷ chunk true (3 ∷ [])
    ∷ written true
    ∷ done
    ∷ round true
    ∷ written true
    ∷ round true
    ∷ finished true
    ∷ []

-- `run`, with all that it calls open.
play : List Event → Download → Download
unfolding run step on_meta on_chunk chunk_of accept pause wake start_writer start_of turn round_of
    round_on resume when_empty take_batch fill round_due write_due write_ends stored refused
    finish_due finish_ends finish_of return cleanup fail on_done done_of
play es d = run es d

short_disk : (run short (on_meta 3)).disk ≡ 1 ∷ 2 ∷ 3 ∷ []
unfolding play
short_disk = refl

pub short_status : (run short (on_meta 3)).status ≡ completed
unfolding play
short_status = refl

short-IsOrdered : IsOrdered short (on_meta 3)
unfolding play
short-IsOrdered = (tt, (refl, (tt, (refl, (tt, (tt, (tt, (tt, (tt, (tt, tt))))))))))

run-IsRight_example : IsRight (run short (on_meta 3))
run-IsRight_example = run-IsRight 3 short short-IsOrdered

run-IsFluent_example : IsFluent (run short (on_meta 3))
run-IsFluent_example =
    run-IsFluent 3 short (refl, (refl, (refl, (refl, (tt, (tt, (refl, (tt, (refl, (tt, tt))))))))))

-- A paused sender, and nothing left to write.
abbrev paused_stream : StreamState
paused_stream = record {
  expected = 9;
  received_bytes = 2;
  written_bytes = 2;
  pending = [];
  pending_bytes = 0;
  started = true;
  done_received = false;
  writer_running = true;
  flow_pause_sent = true;
}

abbrev paused : Download
paused = record {
  stream = some paused_stream;
  channel_open = true;
  writer = looping;
  status = transferring;
  disk = 1 ∷ 2 ∷ [];
  arrived = 1 ∷ 2 ∷ [];
  sent = flow_pause ∷ [];
}

-- The last byte is pending, and `done` has come.
abbrev last_byte : StreamState
last_byte = record paused_stream {
  pending = (3 ∷ []) ∷ [];
  pending_bytes = 1;
  done_received = true;
}

run-finish_schedule_example :
    (run (finish_schedule 1) (record paused { stream = some last_byte })).status ≡ completed
run-finish_schedule_example =
    run-finish_schedule 1 (record paused { stream = some last_byte }) last_byte refl refl refl refl
      (omega arith)
