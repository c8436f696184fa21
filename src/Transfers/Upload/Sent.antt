-- ===== src/Transfers/Upload/Sent.antt =====
-- What a subscriber is sent is a prefix of the file, and the whole file when it is told `done`.
use cordia.Base.{
  All, All-append, All-keep, Bool, Bool-cases, Dict, Option, Str, [], ap, arith, drop, eqb, eqb_iff,
  false, inl, inr, leb, length, lookup, nat_eq, none, not, put, refl, some, str_eq, subst, suc, sym,
  take, true, zero, ℕ, ◌&&◌, ◌++◌, ◌+◌, ◌∙◌, ◌∷◌, ◌≡◌, ◌≤◌,
}
use cordia.Transfers.Stream.{Bytes}
use cordia.Transfers.Upload.Turn.{split_done}
use cordia.Transfers.Upload.{
  Subscriber, UploadSession, Phase, store, advance, burst, max_burst, complete, serve, serve_all,
  is_passed, evict, deliver, fail_all,
}

-- The part of the file from `offset`, `n` bytes long.
abbrev pub slice : Bytes → ℕ → ℕ → Bytes
slice file offset n = take n (drop offset file)

take_nil : (n : ℕ) → take {A = ℕ} n [] ≡ []
take_nil zero = refl
take_nil (suc n) = refl

take-add : (m n : ℕ) (xs : Bytes) → take (m + n) xs ≡ take m xs ++ take n (drop m xs)
take-add zero n xs = let e : 0 + n ≡ n = omega arith in rw e refl
take-add (suc m) n [] = take_nil (suc m + n) ∙ sym (take_nil n)
take-add (suc m) n (x ∷ xs) =
    let e : suc m + n ≡ suc (m + n) = omega arith in rw e (ap (◌∷◌ x) (take-add m n xs))

take_all : (n : ℕ) (xs : Bytes) → length xs ≤ n → take n xs ≡ xs
take_all zero [] h = refl
take_all zero (x ∷ xs) h = absurd (omega (arith, h))
take_all (suc n) [] h = refl
take_all (suc n) (x ∷ xs) h = ap (◌∷◌ x) (take_all n xs (omega (arith, h)))

module _ (file : Bytes) where
  abbrev pub IsBlock : ℕ × Bytes → Type 0
  IsBlock (offset, block) = block ≡ slice file offset (length block)

  abbrev pub IsPrefix : Subscriber → Type 0
  IsPrefix sub = sub.sent ≡ take sub.next_offset file

  -- The cache holds parts of the file, and each subscriber was sent the file up to its offset.
  pub record IsFaithful (s : UploadSession) : Type 0 where
    pub total : s.total_bytes ≡ length file
    pub blocks : All IsBlock s.cache
    pub prefixes : All (λ b. (b.1.done ≡ false) × IsPrefix b.1) s.subscribers
    pub whole : All (λ sub. sub.sent ≡ file) s.finished

  lookup-IsBlock :
      (offset : ℕ) (cache : Dict ℕ Bytes) (chunk : Bytes)
      → All IsBlock cache
      → lookup offset cache ≡ some chunk
      → chunk ≡ slice file offset (length chunk)
  unfolding lookup
  lookup-IsBlock offset [] chunk h e = absurd (ground arith)
  lookup-IsBlock offset ((k, block) ∷ cache) chunk h e = elim (Bool-cases (eqb k offset)) [
    | inl same ↦
        let at : k ≡ offset = (eqb_iff k offset).0 same in
        let found : block ≡ chunk = ground (arith, e, same) in
        subst (λ c. c ≡ slice file offset (length c)) found
          (subst (λ o. block ≡ slice file o (length block)) at h.0)
    | inr other ↦ lookup-IsBlock offset cache chunk h.1 (ground (arith, e, other))
  ]

  put-IsBlock :
      (offset : ℕ) (block : Bytes) (cache : Dict ℕ Bytes)
      → IsBlock (offset, block)
      → All IsBlock cache
      → All IsBlock (put offset block cache)
  unfolding put
  put-IsBlock offset block [] new h = (new, tt)
  put-IsBlock offset block ((k, old) ∷ cache) new h = elim (Bool-cases (eqb k offset)) [
    | inl same ↦
        rw same (subst (λ o. IsBlock (o, block)) (sym ((eqb_iff k offset).0 same)) new, h.1)
    | inr other ↦ rw other (h.0, put-IsBlock offset block cache new h.1)
  ]

  advance-IsPrefix :
      (o : Option Bytes) (cache : Dict ℕ Bytes) (sub : Subscriber)
      → lookup sub.next_offset cache ≡ o
      → All IsBlock cache
      → IsPrefix sub
      → IsPrefix (advance o sub)
  advance-IsPrefix none cache sub e h p = p
  advance-IsPrefix (some chunk) cache sub e h p =
      ap (λ t. t ++ chunk) p
      ∙ ap (λ t. take sub.next_offset file ++ t) (lookup-IsBlock sub.next_offset cache chunk h e)
      ∙ sym (take-add sub.next_offset (length chunk) file)

  burst-IsPrefix :
      (room : ℕ → Bool) (cache : Dict ℕ Bytes) (left : ℕ) (sub : Subscriber)
      → All IsBlock cache
      → IsPrefix sub
      → IsPrefix (burst room cache left sub) × ((burst room cache left sub).done ≡ sub.done)
  unfolding burst
  burst-IsPrefix room cache zero sub h p = (p, refl)
  burst-IsPrefix room cache (suc left) sub h p =
      let chunk = lookup sub.next_offset cache in
      let ih =
        burst-IsPrefix room cache left (advance chunk sub) h
          (advance-IsPrefix chunk cache sub refl h p) in
      ground (arith, ih.0, ih.1)

  -- A subscriber was sent the file up to its offset, and all of it if it is done.
  abbrev pub IsServed : Subscriber → Type 0
  IsServed sub = IsPrefix sub × (sub.done ≡ true → sub.sent ≡ file)

  complete-IsServed :
      (eof : Bool) (total : ℕ) (sub : Subscriber)
      → total ≡ length file
      → sub.done ≡ false
      → IsPrefix sub
      → IsServed (complete eof total sub)
  unfolding complete
  complete-IsServed eof total sub t e p =
      let all : (eof && leb total sub.next_offset && sub.channel_open) ≡ true → sub.sent ≡ file =
        λ h. p ∙ take_all sub.next_offset file (ground (arith, t, h)) in
      ground (arith, all)

  serve-IsServed :
      (room : ℕ → Bool) (s : UploadSession) (sub : Subscriber)
      → s.total_bytes ≡ length file
      → All IsBlock s.cache
      → sub.done ≡ false
      → IsPrefix sub
      → IsServed (serve room s sub)
  unfolding serve
  serve-IsServed room s sub t h e p =
      let (p', e') = burst-IsPrefix room s.cache max_burst sub h p in
      let served =
        complete-IsServed s.eof s.total_bytes (burst room s.cache max_burst sub) t (e' ∙ e) p' in
      ground (arith, served.0, served.1)

  serve_all-IsServed :
      (room : Str → ℕ → Bool) (s : UploadSession) (subs : Dict Str Subscriber)
      → s.total_bytes ≡ length file
      → All IsBlock s.cache
      → All (λ b. (b.1.done ≡ false) × IsPrefix b.1) subs
      → All (λ b. (b.1.done ≡ false) × IsPrefix b.1) (serve_all room s subs).0
        × All (λ sub. sub.sent ≡ file) (serve_all room s subs).1
  unfolding serve_all
  serve_all-IsServed room s [] t h p = (tt, tt)
  serve_all-IsServed room s ((k, sub) ∷ subs) t h p =
      let ih = serve_all-IsServed room s subs t h p.1 in
      let here = serve-IsServed (room k) s sub t h p.0.0 p.0.1 in
      let served = serve (room k) s sub in
      split_done (λ t. (t.done ≡ false) × IsPrefix t) (λ t. t.sent ≡ file) k served
        (serve_all room s subs).0 (serve_all room s subs).1 served.done (λ e. (e, here.0)) ih.0
        here.1 ih.1

  evict-IsFaithful : (s : UploadSession) (o : Option ℕ) → IsFaithful s → IsFaithful (evict s o)
  unfolding evict
  evict-IsFaithful s none w = record {
    total = w.total;
    blocks = tt;
    prefixes = w.prefixes;
    whole = w.whole;
  }
  evict-IsFaithful s (some least) w = record {
    total = w.total;
    blocks = All-keep IsBlock (λ b. not (is_passed least b)) s.cache w.blocks;
    prefixes = w.prefixes;
    whole = w.whole;
  }

  pub deliver-IsFaithful :
      (room : Str → ℕ → Bool) (s : UploadSession) → IsFaithful s → IsFaithful (deliver room s)
  unfolding deliver
  deliver-IsFaithful room s w =
      let (left, done) = serve_all-IsServed room s s.subscribers w.total w.blocks w.prefixes in
      evict-IsFaithful _ _ (record {
        total = w.total;
        blocks = w.blocks;
        prefixes = left;
        whole = All-append (λ sub. sub.sent ≡ file) _ s.finished done w.whole;
      })

  pub store-IsFaithful :
      (block : Bytes) (s : UploadSession)
      → IsBlock (s.next_read_offset, block)
      → IsFaithful s
      → IsFaithful (store block s)
  unfolding store
  store-IsFaithful [] s new w = record {
    total = w.total;
    blocks = w.blocks;
    prefixes = w.prefixes;
    whole = w.whole;
  }
  store-IsFaithful (b ∷ block) s new w = record {
    total = w.total;
    blocks = put-IsBlock s.next_read_offset (b ∷ block) s.cache new w.blocks;
    prefixes = w.prefixes;
    whole = w.whole;
  }

  pub fail_all-IsFaithful : (s : UploadSession) → IsFaithful s → IsFaithful (fail_all s)
  unfolding fail_all
  fail_all-IsFaithful s w = record { total = w.total; blocks = tt; prefixes = tt; whole = w.whole }

  pub with_prefixes :
      (s : UploadSession) (subs : Dict Str Subscriber) (phase : Phase)
      → IsFaithful s
      → All (λ b. (b.1.done ≡ false) × IsPrefix b.1) subs
      → IsFaithful (record s { subscribers = subs; phase = phase })
  with_prefixes s subs phase w h = record {
    total = w.total;
    blocks = w.blocks;
    prefixes = h;
    whole = w.whole;
  }
