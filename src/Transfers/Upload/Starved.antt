-- ===== src/Transfers/Upload/Starved.antt =====
-- A subscriber whose next block has been evicted: blocks are read at growing offsets only, so it is
-- never sent anything again.
use cordia.Base.{
  All, All-append, All-put, All-remove, Bool, Bool-cases, Dict, List, Option, Str, [], arith, inl,
  inr, lookup, lookup-put, nat_eq, none, not, refl, some, str_eq, subst, ℕ, ◌<◌, ◌==◌, ◌∷◌, ◌≡◌,
  ◌≢◌,
}
use cordia.Transfers.Stream.{Bytes}
use cordia.Transfers.Upload.{
  Subscriber, UploadSession, Phase, at_head, reading, returned, new_subscriber, store, is_passed,
  evict, deliver, fail_all, head, wants_read, read_ends, update, subscribe, UploadEvent, join,
  opened, paused, resumed, left_by, runs, read, timeout, pump, resume_read, expire, upload_step,
  upload_run,
}
use cordia.Transfers.Upload.Served.{StandsAt, absent-keep, serve_all-StandsAt}

-- The block at `offset` was read before and is no longer cached.
pub record IsStarved (id : Str) (offset : ℕ) (bytes : Bytes) (s : UploadSession) : Type 0 where
  pub short : offset < s.total_bytes
  pub below : offset < s.next_read_offset
  pub absent : lookup offset s.cache ≡ none
  pub subs : All (λ b. StandsAt id offset bytes b.1) s.subscribers
  pub unfinished : All (λ sub. sub.request_id ≢ id) s.finished

-- The other subscribers' requests.
abbrev pub JoinsOnlyOthers : Str → UploadEvent → Type 0
JoinsOnlyOthers id (join other user) = other ≢ id
JoinsOnlyOthers id _ = Unit

module _ (id : Str) (offset : ℕ) (bytes : Bytes) where
  evict-IsStarved :
      (s : UploadSession) (o : Option ℕ)
      → IsStarved id offset bytes s
      → IsStarved id offset bytes (evict s o)
  unfolding evict lookup
  evict-IsStarved s none w = record {
    short = w.short;
    below = w.below;
    absent = refl;
    subs = w.subs;
    unfinished = w.unfinished;
  }
  evict-IsStarved s (some least) w = record {
    short = w.short;
    below = w.below;
    absent = absent-keep id offset bytes (λ b. not (is_passed least b)) s.cache w.absent;
    subs = w.subs;
    unfinished = w.unfinished;
  }

  deliver-IsStarved :
      (room : Str → ℕ → Bool) (s : UploadSession)
      → IsStarved id offset bytes s
      → IsStarved id offset bytes (deliver room s)
  unfolding deliver
  deliver-IsStarved room s w =
      let (left, done) =
        serve_all-StandsAt id offset bytes room s s.subscribers w.short w.absent w.subs in
      evict-IsStarved _ _ (record {
        short = w.short;
        below = w.below;
        absent = w.absent;
        subs = left;
        unfinished = All-append (λ sub. sub.request_id ≢ id) _ s.finished done w.unfinished;
      })

  store-IsStarved :
      (block : Bytes) (s : UploadSession)
      → IsStarved id offset bytes s
      → IsStarved id offset bytes (store block s)
  unfolding store
  store-IsStarved [] s w = record {
    short = w.short;
    below = w.below;
    absent = w.absent;
    subs = w.subs;
    unfinished = w.unfinished;
  }
  store-IsStarved (b ∷ block) s w = record {
    short = w.short;
    below = omega (arith, w.below);
    absent =
        ground (arith, w.absent, w.below, lookup-put s.next_read_offset offset (b ∷ block) s.cache);
    subs = w.subs;
    unfinished = w.unfinished;
  }

  fail_all-IsStarved :
      (s : UploadSession) → IsStarved id offset bytes s → IsStarved id offset bytes (fail_all s)
  unfolding fail_all lookup
  fail_all-IsStarved s w = record {
    short = w.short;
    below = w.below;
    absent = refl;
    subs = tt;
    unfinished = w.unfinished;
  }

  update-StandsAt :
      (f : Subscriber → Subscriber) (k : Str) (subs : Dict Str Subscriber)
      → ((sub : Subscriber) → StandsAt id offset bytes sub → StandsAt id offset bytes (f sub))
      → All (λ b. StandsAt id offset bytes b.1) subs
      → All (λ b. StandsAt id offset bytes b.1) (update f k subs)
  update-StandsAt f k [] keeps h = tt
  update-StandsAt f k ((j, sub) ∷ subs) keeps h = elim (Bool-cases (j == k)) [
    | inl e ↦ rw e (keeps sub h.0, update-StandsAt f k subs keeps h.1)
    | inr e ↦ rw e (h.0, update-StandsAt f k subs keeps h.1)
  ]

  with_subs :
      (s : UploadSession) (subs : Dict Str Subscriber) (phase : Phase)
      → IsStarved id offset bytes s
      → All (λ b. StandsAt id offset bytes b.1) subs
      → IsStarved id offset bytes (record s { subscribers = subs; phase = phase })
  with_subs s subs phase w h = record {
    short = w.short;
    below = w.below;
    absent = w.absent;
    subs = h;
    unfinished = w.unfinished;
  }

  pump-IsStarved :
      (room : Str → ℕ → Bool) (s : UploadSession) (phase : Phase)
      → IsStarved id offset bytes s
      → IsStarved id offset bytes (pump room s phase)
  unfolding pump head
  pump-IsStarved room s at_head w = elim (Bool-cases (wants_read s)) [
    | inl e ↦ rw e (with_subs s s.subscribers reading w w.subs)
    | inr e ↦ rw e (deliver-IsStarved room s w)
  ]
  pump-IsStarved room s reading w = w
  pump-IsStarved room s returned w = w

  resume_read-IsStarved :
      (room : Str → ℕ → Bool) (result : Option Bytes) (s : UploadSession) (phase : Phase)
      → IsStarved id offset bytes s
      → IsStarved id offset bytes (resume_read room result s phase)
  unfolding resume_read read_ends
  resume_read-IsStarved room none s reading w = fail_all-IsStarved s w
  resume_read-IsStarved room (some block) s reading w =
      deliver-IsStarved room (store block s) (store-IsStarved block s w)
  resume_read-IsStarved room result s at_head w = w
  resume_read-IsStarved room result s returned w = w

  expire-IsStarved :
      (s : UploadSession) (phase : Phase)
      → IsStarved id offset bytes s
      → IsStarved id offset bytes (expire s phase)
  unfolding expire
  expire-IsStarved s at_head w = fail_all-IsStarved s w
  expire-IsStarved s reading w = w
  expire-IsStarved s returned w = w

  subscribe-IsStarved :
      (other user : Str) (s : UploadSession) (subs : Dict Str Subscriber)
      → other ≢ id
      → s.subscribers ≡ subs
      → IsStarved id offset bytes s
      → IsStarved id offset bytes (subscribe other user s subs)
  unfolding subscribe
  subscribe-IsStarved other user s [] o e w = w
  subscribe-IsStarved other user s (b ∷ subs) o e w = with_subs s _ s.phase w (
      All-put (StandsAt id offset bytes) other (new_subscriber other user) (b ∷ subs)
        (λ own. absurd (o own)) (subst (λ l. All (λ b. StandsAt id offset bytes b.1) l) e w.subs))

  upload_step-IsStarved :
      (e : UploadEvent) (s : UploadSession)
      → JoinsOnlyOthers id e
      → IsStarved id offset bytes s
      → IsStarved id offset bytes (upload_step e s)
  unfolding upload_step
  upload_step-IsStarved (join other user) s o w =
      subscribe-IsStarved other user s s.subscribers o refl w
  upload_step-IsStarved (opened k) s o w =
      with_subs s _ _ w (update-StandsAt _ k s.subscribers (λ sub h. h) w.subs)
  upload_step-IsStarved (paused k) s o w =
      with_subs s _ s.phase w (update-StandsAt _ k s.subscribers (λ sub h. h) w.subs)
  upload_step-IsStarved (resumed k) s o w =
      with_subs s _ s.phase w (update-StandsAt _ k s.subscribers (λ sub h. h) w.subs)
  upload_step-IsStarved (left_by k) s o w =
      with_subs s _ s.phase w (All-remove (StandsAt id offset bytes) k s.subscribers w.subs)
  upload_step-IsStarved (runs room) s o w = pump-IsStarved room s s.phase w
  upload_step-IsStarved (read room result) s o w = resume_read-IsStarved room result s s.phase w
  upload_step-IsStarved timeout s o w = expire-IsStarved s s.phase w

  -- A subscriber that is not at the end of the file and whose next block was read before and is not
  -- cached stays as it is in every schedule: it is sent no further byte and never told `done`, for
  -- as long as it is there.
  pub upload_run-IsStarved :
      (es : List UploadEvent) (s : UploadSession)
      → All (JoinsOnlyOthers id) es
      → IsStarved id offset bytes s
      → IsStarved id offset bytes (upload_run es s)
  unfolding upload_run
  upload_run-IsStarved [] s o w = w
  upload_run-IsStarved (e ∷ es) s o w =
      upload_run-IsStarved es (upload_step e s) o.1 (upload_step-IsStarved e s o.0 w)
