-- ===== src/Messages/Prune/Cut.antt =====
-- What pruneBuckets keeps: other servers' buckets, and of its own server's messages the newest that
-- fit.
use cordia.Base.{
  All, All-append, All-drop, Bool, Bool-cases, HasDistinctKeys, List, Str, [], ap, arith, drop,
  false, inl, inr, keep_keys, leb, lookup, lookup-keep_keys, lookup-put_all, ltb, map, nat_eq, none,
  not, put_all, refl, sort_by-All, sort_by-IsSortedBy, str_beq_iff, str_eq, subst, suc, sym, take,
  take-IsBelow_drop, true, zero, ℕ, ◌*◌, ◌<◌, ◌∙◌, ◌∷◌, ◌≡◌, ◌≤◌, ◌⊎◌,
}
use cordia.Messages.{ChatMessage, MessageBuckets}
use cordia.Messages.Buckets.{list_of}
use cordia.Messages.Prune.{
  Entry, is_of_server, entries, group, shrink, fit, server_entries, prune_buckets,
}
use cordia.Messages.Prune.Group.{
  messages_of, lookup-group, group-HasDistinctKeys, group_nil, lookup-group_absent,
}

module _ (stored_bytes : MessageBuckets → ℕ) where
  -- `n` is the least number of entries to drop so that the rest fits, or all if nothing fits.
  pub record IsLeastCut (max_bytes : ℕ) (all : List Entry) (n : ℕ) : Type 0 where
    pub fits : (stored_bytes (group (drop n all)) ≤ max_bytes) ⊎ (drop n all ≡ [])
    pub least : (j : ℕ) → j < n → max_bytes < stored_bytes (group (drop j all))

  -- The loop's result is such a cut.
  unfoldable pub IsCutTo : ℕ → List Entry → MessageBuckets → Type 0
  IsCutTo max_bytes all result =
      (n : ℕ) × IsLeastCut max_bytes all n × (result ≡ group (drop n all))

  drops_one :
      (max_bytes : ℕ) (e : Entry) (all : List Entry)
      → max_bytes < stored_bytes (group (e ∷ all))
      → (stored_bytes (group all) ≤ max_bytes) ⊎ (all ≡ [])
      → IsLeastCut max_bytes (e ∷ all) 1
  drops_one max_bytes e all h f = record {
    fits = f;
    least = λ j k. let first : j ≡ 0 = omega arith in rw first h;
  }

  drops_more :
      (max_bytes : ℕ) (e : Entry) (all : List Entry) (n : ℕ)
      → max_bytes < stored_bytes (group (e ∷ all))
      → IsLeastCut max_bytes all n
      → IsLeastCut max_bytes (e ∷ all) (suc n)
  drops_more max_bytes e all n h cut = record {
    fits = cut.fits;
    least = λ j. elim j as (λ j. j < suc n → max_bytes < stored_bytes (group (drop j (e ∷ all)))) [
      | zero ↦ λ _. h
      | suc i ↦ λ k. cut.least i (omega arith)
    ];
  }

  shrink-IsCutTo :
      (max_bytes : ℕ) (e : Entry) (all : List Entry)
      → max_bytes < stored_bytes (group (e ∷ all))
      → IsCutTo max_bytes (e ∷ all) (shrink stored_bytes max_bytes (e ∷ all))
  unfolding shrink IsCutTo
  shrink-IsCutTo max_bytes e [] h =
      (1, drops_one max_bytes e [] h (inr refl), ground (arith, group_nil))
  shrink-IsCutTo max_bytes e (x ∷ xs) h =
      elim (Bool-cases (leb (stored_bytes (group (x ∷ xs))) max_bytes)) [
        | inl t ↦ (1, drops_one max_bytes e (x ∷ xs) h (inl (ground arith)), rw t refl)
        | inr t ↦
            let (n, cut, same) = shrink-IsCutTo max_bytes x xs (ground arith) in
            (suc n, drops_more max_bytes e (x ∷ xs) n h cut, rw t same)
      ]

  pub fit-IsCutTo :
      (max_bytes : ℕ) (all : List Entry) → IsCutTo max_bytes all (fit stored_bytes max_bytes all)
  unfolding fit shrink IsCutTo
  fit-IsCutTo max_bytes [] = (
    0,
    record { fits = inr refl; least = λ j h. absurd (omega arith) },
    ground (arith, group_nil),
  )
  fit-IsCutTo max_bytes (e ∷ all) =
      elim (Bool-cases (ltb max_bytes (stored_bytes (group (e ∷ all))))) [
        | inl t ↦
            let (n, cut, same) = shrink-IsCutTo max_bytes e all (ground arith) in
            (n, cut, rw t same)
        | inr t ↦ (
          0,
          record { fits = inl (ground arith); least = λ j h. absurd (omega arith) },
          rw t refl,
        )
      ]

map_entry-All :
    (p : Str → Bool) (k : Str) (ms : List ChatMessage)
    → p k ≡ true
    → All {A = Entry} (λ e. p e.bucket ≡ true) (map (λ m. record { bucket = k; message = m }) ms)
map_entry-All p k [] h = tt
map_entry-All p k (m ∷ ms) h = (h, map_entry-All p k ms h)

entries-All :
    (p : Str → Bool) (buckets : MessageBuckets)
    → All (λ e. p e.bucket ≡ true) (entries (keep_keys p buckets))
unfolding entries
entries-All p [] = tt
entries-All p ((k, list) ∷ buckets) = elim (Bool-cases (p k)) [
  | inl h ↦
      rw h
        (All-append (λ e. p e.bucket ≡ true) _ _ (map_entry-All p k list h) (entries-All p buckets))
  | inr h ↦ rw h (entries-All p buckets)
]

messages_of-eq-nil :
    (pk k : Str) (es : List Entry)
    → All (λ e. is_of_server pk e.bucket ≡ true) es
    → is_of_server pk k ≡ false
    → messages_of k es ≡ []
messages_of-eq-nil pk k [] h o = refl
messages_of-eq-nil pk k (e ∷ es) h o =
    ground (arith, messages_of-eq-nil pk k es h.1, str_beq_iff e.bucket k, h.0)

module _ (pk k : Str) (buckets candidate : MessageBuckets)
    (distinct : HasDistinctKeys candidate) where
  merged-own :
      is_of_server pk k ≡ true
      → list_of (lookup k (put_all (keep_keys (λ j. not (is_of_server pk j)) buckets) candidate))
        ≡ list_of (lookup k candidate)
  merged-own h = ground (
    arith,
    lookup-put_all k (keep_keys (λ j. not (is_of_server pk j)) buckets) candidate distinct,
    lookup-keep_keys (λ j. not (is_of_server pk j)) k buckets,
  )

  merged-others :
      is_of_server pk k ≡ false
      → lookup k candidate ≡ none
      → lookup k (put_all (keep_keys (λ j. not (is_of_server pk j)) buckets) candidate)
        ≡ lookup k buckets
  merged-others h e = ground (
    arith,
    lookup-put_all k (keep_keys (λ j. not (is_of_server pk j)) buckets) candidate distinct,
    lookup-keep_keys (λ j. not (is_of_server pk j)) k buckets,
  )

module _ (stored_bytes : MessageBuckets → ℕ) (time_of : Str → ℕ) where
  -- `after` is `before`, less the oldest messages of one server, as few as make the rest fit.
  pub record IsPruned (max_storage_mb : ℕ) (signing_pubkey : Str) (before after : MessageBuckets)
      : Type 0 where
    pub dropped : ℕ
    pub cut :
        IsLeastCut stored_bytes
          (max_storage_mb * 1024 * 1024)
          (server_entries time_of before signing_pubkey)
          dropped
    pub own :
        (k : Str)
        → is_of_server signing_pubkey k ≡ true
        → list_of (lookup k after)
          ≡ messages_of k (drop dropped (server_entries time_of before signing_pubkey))
    pub others :
        (k : Str) → is_of_server signing_pubkey k ≡ false → lookup k after ≡ lookup k before
    pub oldest :
        All
          (λ x.
            All
              (λ y. time_of x.message.sent_at ≤ time_of y.message.sent_at)
              (drop dropped (server_entries time_of before signing_pubkey)))
          (take dropped (server_entries time_of before signing_pubkey))

  -- pruneBuckets leaves the other servers' buckets as they were, and keeps of its own server's
  -- messages, by time, all but the oldest few: the least number whose removal makes the rest fit
  -- the limit, or all if nothing fits.
  pub prune_buckets-IsPruned :
      (buckets : MessageBuckets) (max_storage_mb : ℕ) (signing_pubkey : Str)
      → IsPruned max_storage_mb signing_pubkey buckets
          (prune_buckets stored_bytes time_of buckets max_storage_mb signing_pubkey)
  unfolding prune_buckets server_entries IsCutTo
  prune_buckets-IsPruned buckets mb pk =
      let all = server_entries time_of buckets pk in
      let (n, cut, same) = fit-IsCutTo stored_bytes (mb * 1024 * 1024) all in
      record {
        dropped = n;
        cut = cut;
        own = λ k h.
            merged-own pk k buckets _ (subst HasDistinctKeys (sym same) (group-HasDistinctKeys _)) h
            ∙ ap (λ c. list_of (lookup k c)) same
            ∙ lookup-group k (drop n all);
        others = λ k h.
            let own_only =
              All-drop (λ e. is_of_server pk e.bucket ≡ true) n all
                (sort_by-All (λ e. time_of e.message.sent_at) (λ e. is_of_server pk e.bucket ≡ true)
                  _ (entries-All (is_of_server pk) buckets)) in
            merged-others pk k buckets _
              (subst HasDistinctKeys (sym same) (group-HasDistinctKeys _)) h
              (ap (lookup k) same
                ∙ lookup-group_absent k (drop n all)
                    (messages_of-eq-nil pk k (drop n all) own_only h));
        oldest =
            take-IsBelow_drop (λ e. time_of e.message.sent_at) n all
              (sort_by-IsSortedBy (λ e. time_of e.message.sent_at) _);
      }
