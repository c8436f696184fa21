-- ===== src/Transfers/Upload/Faithful.antt =====
-- In every schedule of an upload session, each subscriber is sent the file.
use cordia.Base.{
  All, All-put, All-remove, Bool, Bool-cases, Dict, List, Option, Str, [], false, inl, inr, length,
  nat_eq, none, refl, some, str_eq, subst, ℕ, ◌==◌, ◌∷◌, ◌≡◌,
}
use cordia.Transfers.Stream.{Bytes}
use cordia.Transfers.Upload.{
  Subscriber, UploadSession, Phase, at_head, reading, returned, new_session, new_subscriber, store,
  head, wants_read, update, subscribe, UploadEvent, join, opened, paused, resumed, left_by, runs,
  read, timeout, pump, resume_read, read_ends, expire, upload_step, upload_run,
}
use cordia.Transfers.Upload.Sent.{
  slice, IsPrefix, IsFaithful, deliver-IsFaithful, store-IsFaithful, fail_all-IsFaithful,
  with_prefixes,
}

module _ (file : Bytes) where
  -- A read that succeeds returns bytes of the file from the offset that was asked for.
  abbrev pub ReadsFile : UploadEvent → UploadSession → Type 0
  ReadsFile (read room (some block)) s = block ≡ slice file s.next_read_offset (length block)
  ReadsFile _ s = Unit

  -- All reads of a schedule do.
  abbrev pub IsHonest : List UploadEvent → UploadSession → Type 0
  IsHonest [] s = Unit
  IsHonest (e ∷ es) s = ReadsFile e s × IsHonest es (upload_step e s)

  pump-IsFaithful :
      (room : Str → ℕ → Bool) (s : UploadSession) (phase : Phase)
      → IsFaithful file s
      → IsFaithful file (pump room s phase)
  unfolding pump head
  pump-IsFaithful room s at_head w = elim (Bool-cases (wants_read s)) [
    | inl e ↦ rw e (with_prefixes file s s.subscribers reading w w.prefixes)
    | inr e ↦ rw e (deliver-IsFaithful file room s w)
  ]
  pump-IsFaithful room s reading w = w
  pump-IsFaithful room s returned w = w

  resume_read-IsFaithful :
      (room : Str → ℕ → Bool) (result : Option Bytes) (s : UploadSession) (phase : Phase)
      → ReadsFile (read room result) s
      → IsFaithful file s
      → IsFaithful file (resume_read room result s phase)
  unfolding resume_read read_ends
  resume_read-IsFaithful room none s reading o w = fail_all-IsFaithful file s w
  resume_read-IsFaithful room (some block) s reading o w =
      deliver-IsFaithful file room (store block s) (store-IsFaithful file block s o w)
  resume_read-IsFaithful room result s at_head o w = w
  resume_read-IsFaithful room result s returned o w = w

  expire-IsFaithful :
      (s : UploadSession) (phase : Phase) → IsFaithful file s → IsFaithful file (expire s phase)
  unfolding expire
  expire-IsFaithful s at_head w = fail_all-IsFaithful file s w
  expire-IsFaithful s reading w = w
  expire-IsFaithful s returned w = w

  -- A subscriber that is not done and was sent a prefix of the file.
  abbrev IsServing : Subscriber → Type 0
  IsServing sub = (sub.done ≡ false) × IsPrefix file sub

  subscribe-IsFaithful :
      (id user : Str) (s : UploadSession) (subs : Dict Str Subscriber)
      → s.subscribers ≡ subs
      → IsFaithful file s
      → IsFaithful file (subscribe id user s subs)
  unfolding subscribe
  subscribe-IsFaithful id user s [] e w = w
  subscribe-IsFaithful id user s (b ∷ subs) e w = with_prefixes file s _ s.phase w (
      All-put IsServing id (new_subscriber id user) (b ∷ subs) (refl, refl)
        (subst (λ l. All (λ b. IsServing b.1) l) e w.prefixes))

  update-IsServing :
      (f : Subscriber → Subscriber) (k : Str) (subs : Dict Str Subscriber)
      → ((sub : Subscriber) → IsServing sub → IsServing (f sub))
      → All (λ b. IsServing b.1) subs
      → All (λ b. IsServing b.1) (update f k subs)
  update-IsServing f k [] keeps h = tt
  update-IsServing f k ((j, sub) ∷ subs) keeps h = elim (Bool-cases (j == k)) [
    | inl e ↦ rw e (keeps sub h.0, update-IsServing f k subs keeps h.1)
    | inr e ↦ rw e (h.0, update-IsServing f k subs keeps h.1)
  ]

  upload_step-IsFaithful :
      (e : UploadEvent) (s : UploadSession)
      → ReadsFile e s
      → IsFaithful file s
      → IsFaithful file (upload_step e s)
  unfolding upload_step
  upload_step-IsFaithful (join id user) s o w = subscribe-IsFaithful id user s s.subscribers refl w
  upload_step-IsFaithful (opened k) s o w =
      with_prefixes file s _ _ w (update-IsServing _ k s.subscribers (λ sub h. h) w.prefixes)
  upload_step-IsFaithful (paused k) s o w =
      with_prefixes file s _ s.phase w (update-IsServing _ k s.subscribers (λ sub h. h) w.prefixes)
  upload_step-IsFaithful (resumed k) s o w =
      with_prefixes file s _ s.phase w (update-IsServing _ k s.subscribers (λ sub h. h) w.prefixes)
  upload_step-IsFaithful (left_by k) s o w =
      with_prefixes file s _ s.phase w (All-remove IsServing k s.subscribers w.prefixes)
  upload_step-IsFaithful (runs room) s o w = pump-IsFaithful room s s.phase w
  upload_step-IsFaithful (read room result) s o w = resume_read-IsFaithful room result s s.phase o w
  upload_step-IsFaithful timeout s o w = expire-IsFaithful s s.phase w

  upload_run-IsFaithful_from :
      (es : List UploadEvent) (s : UploadSession)
      → IsHonest es s
      → IsFaithful file s
      → IsFaithful file (upload_run es s)
  unfolding upload_run
  upload_run-IsFaithful_from [] s o w = w
  upload_run-IsFaithful_from (e ∷ es) s o w =
      upload_run-IsFaithful_from es (upload_step e s) o.1 (upload_step-IsFaithful e s o.0 w)

  new_session-IsFaithful :
      (attachment_id file_name sha256 request_id user : Str)
      → IsFaithful file (new_session attachment_id file_name sha256 (length file) request_id user)
  unfolding new_session
  new_session-IsFaithful a f h r u = record {
    total = refl;
    blocks = tt;
    prefixes = ((refl, refl), tt);
    whole = tt;
  }

  -- In every schedule whose reads return the file's bytes: the cache holds parts of the file, each
  -- subscriber was sent the file up to its offset, and one that was told `done` the whole file.
  pub upload_run-IsFaithful :
      (es : List UploadEvent) (attachment_id file_name sha256 request_id user : Str)
      → let s = new_session attachment_id file_name sha256 (length file) request_id user in
        IsHonest es s → IsFaithful file (upload_run es s)
  upload_run-IsFaithful es a f h r u o =
      upload_run-IsFaithful_from es _ o (new_session-IsFaithful a f h r u)
