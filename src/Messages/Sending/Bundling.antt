-- ===== src/Messages/Sending/Bundling.antt =====
-- A message whose files are bundled first stands in the chat as if it had been appended when sent.
use cordia.Base.{
  All, Bool-cases, List, Option, Str, [], any, ap, arith, false, if◌then◌else◌, inl, inr, lookup,
  lookup-put, map, nat_eq, put, refl, some, str_beq_iff, str_eq, sym, true, ℕ, ◌++◌, ◌==◌, ◌∙◌, ◌∷◌,
  ◌≡◌,
}
use cordia.Messages.{ChatMessage, MessageBuckets}
use cordia.Messages.Buckets.{
  bucket_key, list_of, append_message, is_message, replace_message_by_id, set_progress,
  update_bundling_progress_by_id,
}

-- No bucket has a message of this id.
abbrev pub IsNew : Str → MessageBuckets → Type 0
IsNew id prev = All (λ b. any (is_message id) b.1 ≡ false) prev

any-append_one :
    (id : Str) (l : List ChatMessage) (m : ChatMessage)
    → is_message id m ≡ true
    → any (is_message id) (l ++ m ∷ []) ≡ true
any-append_one id [] m h = ground (arith, h)
any-append_one id (x ∷ l) m h = ground (arith, any-append_one id l m h)

set_progress-append_one :
    (id : Str) (percent : ℕ) (l : List ChatMessage) (m : ChatMessage)
    → is_message id m ≡ true
    → any (is_message id) l ≡ false
    → set_progress id percent (l ++ m ∷ [])
      ≡ l ++ record m { bundling_progress = some percent } ∷ []
unfolding set_progress
set_progress-append_one id percent [] m h none_yet = rw h refl
set_progress-append_one id percent (x ∷ l) m h none_yet =
    let other : is_message id x ≡ false = ground (arith, none_yet) in
    rw other (ap (◌∷◌ x) (set_progress-append_one id percent l m h (ground (arith, none_yet))))

replaced-append_one :
    (id : Str) (l : List ChatMessage) (m new : ChatMessage)
    → is_message id m ≡ true
    → any (is_message id) l ≡ false
    → map (λ x. if is_message id x then new else x) (l ++ m ∷ []) ≡ l ++ new ∷ []
replaced-append_one id [] m new h none_yet = rw h refl
replaced-append_one id (x ∷ l) m new h none_yet =
    let other : is_message id x ≡ false = ground (arith, none_yet) in
    rw other (ap (◌∷◌ x) (replaced-append_one id l m new h (ground (arith, none_yet))))

-- Appending to the bucket of one key.
abbrev added : Str → ChatMessage → MessageBuckets → MessageBuckets
added k m prev = put k (list_of (lookup k prev) ++ m ∷ []) prev

added_here :
    (k j : Str) (m : ChatMessage) (l : List ChatMessage) (prev : MessageBuckets)
    → (j == k) ≡ true
    → added k m ((j, l) ∷ prev) ≡ (j, l ++ m ∷ []) ∷ prev
unfolding put lookup
added_here k j m l prev e = rw e refl

added_below :
    (k j : Str) (m : ChatMessage) (l : List ChatMessage) (prev : MessageBuckets)
    → (j == k) ≡ false
    → added k m ((j, l) ∷ prev) ≡ (j, l) ∷ added k m prev
unfolding put lookup
added_below k j m l prev e =
    let below : lookup k ((j, l) ∷ prev) ≡ lookup k prev = ground (arith, e) in
    rw e (ap (λ o. (j, l) ∷ put k (list_of o ++ m ∷ []) prev) below)

update_here :
    (j id : Str) (percent : ℕ) (l : List ChatMessage) (prev : MessageBuckets)
    → any (is_message id) l ≡ true
    → update_bundling_progress_by_id ((j, l) ∷ prev) id percent
      ≡ (j, set_progress id percent l) ∷ prev
unfolding update_bundling_progress_by_id
update_here j id percent l prev e = rw e refl

update_below :
    (j id : Str) (percent : ℕ) (l : List ChatMessage) (prev : MessageBuckets)
    → any (is_message id) l ≡ false
    → update_bundling_progress_by_id ((j, l) ∷ prev) id percent
      ≡ (j, l) ∷ update_bundling_progress_by_id prev id percent
unfolding update_bundling_progress_by_id
update_below j id percent l prev e = rw e refl

-- The progress of a message that was appended is that of the message to append.
update-added :
    (k id : Str) (percent : ℕ) (m : ChatMessage) (prev : MessageBuckets)
    → is_message id m ≡ true
    → IsNew id prev
    → update_bundling_progress_by_id (added k m prev) id percent
      ≡ added k (record m { bundling_progress = some percent }) prev
update-added k id percent m [] h new =
    unfold put lookup in
    (update_here k id percent (m ∷ []) [] (any-append_one id [] m h)
      ∙ ap (λ l. (k, l) ∷ []) (set_progress-append_one id percent [] m h refl))
update-added k id percent m ((j, l) ∷ prev) h new = elim (Bool-cases (j == k)) [
  | inl e ↦
      ap (λ b. update_bundling_progress_by_id b id percent) (added_here k j m l prev e)
      ∙ update_here j id percent (l ++ m ∷ []) prev (any-append_one id l m h)
      ∙ ap (λ t. (j, t) ∷ prev) (set_progress-append_one id percent l m h new.0)
      ∙ sym (added_here k j (record m { bundling_progress = some percent }) l prev e)
  | inr e ↦
      ap (λ b. update_bundling_progress_by_id b id percent) (added_below k j m l prev e)
      ∙ update_below j id percent l (added k m prev) new.0
      ∙ ap (◌∷◌ (j, l)) (update-added k id percent m prev h new.1)
      ∙ sym (added_below k j (record m { bundling_progress = some percent }) l prev e)
]

pub lookup-IsNew :
    (k id : Str) (prev : MessageBuckets)
    → IsNew id prev
    → any (is_message id) (list_of (lookup k prev)) ≡ false
unfolding lookup
lookup-IsNew k id [] h = refl
lookup-IsNew k id ((j, l) ∷ prev) h = ground (arith, lookup-IsNew k id prev h.1, h.0)

lookup-added :
    (k : Str) (m : ChatMessage) (prev : MessageBuckets)
    → list_of (lookup k (added k m prev)) ≡ list_of (lookup k prev) ++ m ∷ []
lookup-added k m prev =
    ground (arith, lookup-put k k (list_of (lookup k prev) ++ m ∷ []) prev, str_beq_iff k k)

put-put :
    (k : Str) (l l' : List ChatMessage) (prev : MessageBuckets)
    → put k l (put k l' prev) ≡ put k l prev
unfolding put
put-put k l l' [] = ground (arith, str_beq_iff k k)
put-put k l l' ((j, x) ∷ prev) = elim (Bool-cases (j == k)) [
  | inl e ↦ rw (e, e) refl
  | inr e ↦ rw (e, e) (ap (◌∷◌ (j, x)) (put-put k l l' prev))
]

unfoldable pub progress_all : List ℕ → Str → MessageBuckets → MessageBuckets
progress_all [] id prev = prev
progress_all (percent ∷ percents) id prev =
    progress_all percents id (update_bundling_progress_by_id prev id percent)

progress-added :
    (k id : Str) (percents : List ℕ) (m : ChatMessage) (prev : MessageBuckets)
    → is_message id m ≡ true
    → IsNew id prev
    → (last : Option ℕ) × (progress_all percents id (added k m prev)
        ≡ added k (record m { bundling_progress = last }) prev)
unfolding progress_all
progress-added k id [] m prev h new = (m.bundling_progress, refl)
progress-added k id (percent ∷ percents) m prev h new =
    let (last, e) =
      progress-added k id percents (record m { bundling_progress = some percent }) prev h new in
    (last, ap (progress_all percents id) (update-added k id percent m prev h new) ∙ e)

-- A message is appended for its files to be bundled, its progress is updated any number of times, and
-- it is replaced when it is sent: the buckets are those of an append of the message that was sent,
-- where no bucket had a message of its id before.
pub replace-bundled :
    (pk chat : Str) (percents : List ℕ) (m new : ChatMessage) (prev : MessageBuckets)
    → IsNew m.id prev
    → replace_message_by_id
        (progress_all percents m.id (append_message prev pk chat m))
        pk
        chat
        m.id
        new
      ≡ append_message prev pk chat new
unfolding append_message replace_message_by_id
replace-bundled pk chat percents m new prev h =
    let k = bucket_key pk chat in
    let same : is_message m.id m ≡ true = (str_beq_iff m.id m.id).1 refl in
    let (last, e) = progress-added k m.id percents m prev same h in
    let m' : ChatMessage = record m { bundling_progress = last } in
    let swap : List ChatMessage → List ChatMessage =
      λ l. map (λ x. if is_message m.id x then new else x) l in
    ap (λ b. put k (swap (list_of (lookup k b))) b) e
    ∙ ap (λ l. put k (swap l) (added k m' prev)) (lookup-added k m' prev)
    ∙ ap (λ l. put k l (added k m' prev))
        (replaced-append_one m.id (list_of (lookup k prev)) m' new same
          (lookup-IsNew k m.id prev h))
    ∙ put-put k (list_of (lookup k prev) ++ new ∷ []) (list_of (lookup k prev) ++ m' ∷ []) prev

pub not_replaced :
    (id : Str) (new : ChatMessage) (l : List ChatMessage)
    → any (is_message id) l ≡ false
    → map (λ x. if is_message id x then new else x) l ≡ l
not_replaced id new [] h = refl
not_replaced id new (x ∷ l) h =
    let other : is_message id x ≡ false = ground (arith, h) in
    rw other (ap (◌∷◌ x) (not_replaced id new l (ground (arith, h))))
