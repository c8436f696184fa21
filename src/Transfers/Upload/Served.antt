-- ===== src/Transfers/Upload/Served.antt =====
-- A subscriber whose next block is not cached is served nothing.
use cordia.Base.{
  All, Bool, Dict, Str, [], ap, arith, false, keep, lookup, nat_eq, none, refl, str_eq, subst, suc,
  sym, true, zero, ℕ, ◌<◌, ◌∙◌, ◌∷◌, ◌≡◌, ◌≢◌,
}
use cordia.Transfers.Stream.{Bytes}
use cordia.Transfers.Upload.Turn.{split_done}
use cordia.Transfers.Upload.{
  Subscriber, UploadSession, advance, burst, max_burst, complete, serve, serve_all,
}

-- If this is the subscriber of request `id`, it stands at `offset` and was sent `bytes`.
abbrev pub StandsAt : Str → ℕ → Bytes → Subscriber → Type 0
StandsAt id offset bytes sub =
    sub.request_id ≡ id → (sub.next_offset ≡ offset) × (sub.sent ≡ bytes) × (sub.done ≡ false)

pub true-ne-false : true ≢ false
true-ne-false e = absurd (ground (arith, e))

module _ (id : Str) (offset : ℕ) (bytes : Bytes) where
  burst-request_id :
      (room : ℕ → Bool) (cache : Dict ℕ Bytes) (left : ℕ) (sub : Subscriber)
      → (burst room cache left sub).request_id ≡ sub.request_id
  unfolding burst
  burst-request_id room cache zero sub = refl
  burst-request_id room cache (suc left) sub =
      ground (arith, burst-request_id room cache left (advance (lookup sub.next_offset cache) sub))

  burst-nothing :
      (room : ℕ → Bool) (cache : Dict ℕ Bytes) (left : ℕ) (sub : Subscriber)
      → lookup sub.next_offset cache ≡ none
      → burst room cache left sub ≡ sub
  unfolding burst
  burst-nothing room cache zero sub e = refl
  burst-nothing room cache (suc left) sub e = ground arith

  pub absent-keep :
      (p : ℕ × Bytes → Bool) (cache : Dict ℕ Bytes)
      → lookup offset cache ≡ none
      → lookup offset (keep p cache) ≡ none
  unfolding lookup
  absent-keep p [] e = refl
  absent-keep p ((k, block) ∷ cache) e = ground (arith, absent-keep p cache)

  serve-request_id :
      (room : ℕ → Bool) (s : UploadSession) (sub : Subscriber)
      → (serve room s sub).request_id ≡ sub.request_id
  unfolding serve complete
  serve-request_id room s sub = ground (arith, burst-request_id room s.cache max_burst sub)

  serve-nothing :
      (room : ℕ → Bool) (s : UploadSession) (sub : Subscriber)
      → sub.next_offset < s.total_bytes
      → lookup sub.next_offset s.cache ≡ none
      → serve room s sub ≡ sub
  unfolding serve complete
  serve-nothing room s sub short absent =
      ground (arith, burst-nothing room s.cache max_burst sub absent)

  serve-StandsAt :
      (room : ℕ → Bool) (s : UploadSession) (sub : Subscriber)
      → offset < s.total_bytes
      → lookup offset s.cache ≡ none
      → StandsAt id offset bytes sub
      → StandsAt id offset bytes (serve room s sub)
  serve-StandsAt room s sub short absent h own =
      let mine : sub.request_id ≡ id = sym (serve-request_id room s sub) ∙ own in
      let at : sub.next_offset ≡ offset = (h mine).0 in
      let same : serve room s sub ≡ sub =
        serve-nothing room s sub (omega (arith, at, short))
          (ap (λ o. lookup o s.cache) at ∙ absent) in
      subst (λ t. (t.next_offset ≡ offset) × (t.sent ≡ bytes) × (t.done ≡ false)) (sym same)
        (h mine)

  pub serve_all-StandsAt :
      (room : Str → ℕ → Bool) (s : UploadSession) (subs : Dict Str Subscriber)
      → offset < s.total_bytes
      → lookup offset s.cache ≡ none
      → All (λ b. StandsAt id offset bytes b.1) subs
      → All (λ b. StandsAt id offset bytes b.1) (serve_all room s subs).0
        × All (λ sub. sub.request_id ≢ id) (serve_all room s subs).1
  unfolding serve_all
  serve_all-StandsAt room s [] short absent h = (tt, tt)
  serve_all-StandsAt room s ((k, sub) ∷ subs) short absent h =
      let ih = serve_all-StandsAt room s subs short absent h.1 in
      let stays = serve-StandsAt (room k) s sub short absent h.0 in
      let served = serve (room k) s sub in
      split_done (StandsAt id offset bytes) (λ t. t.request_id ≢ id) k served
        (serve_all room s subs).0 (serve_all room s subs).1 served.done (λ _. stays) ih.0
        (λ e own. absurd (true-ne-false (sym e ∙ (stays own).2))) ih.1
