-- ===== src/Messages/Storage/Single.antt =====
-- The buckets of a client that has one chat.
use mathlib.Core.List.{append_assoc, append-nil}
use cordia.Base.{
  All, List, Str, [], ap, arith, lookup, map, nat_eq, put, put_all, refl, sort_by, str_beq_iff,
  str_eq, sym, ℕ, ◌++◌, ◌∙◌, ◌∷◌, ◌≡◌,
}
use cordia.Messages.{ChatMessage, MessageBuckets}
use cordia.Messages.Buckets.{bucket_key, list_of, append_message}
use cordia.Messages.Prune.{Entry, push_entry, group_onto, group}

abbrev pub entry_of : Str → ChatMessage → Entry
entry_of k m = record { bucket = k; message = m }

-- The messages of one bucket by time, as pruneBuckets orders them.
abbrev pub by_time : (Str → ℕ) → Str → List ChatMessage → List ChatMessage
by_time time_of k l =
    map (λ e. e.message) (sort_by (λ e. time_of e.message.sent_at) (map (entry_of k) l))

pub map_entry : (k : Str) (l : List ChatMessage) → map (λ e. e.message) (map (entry_of k) l) ≡ l
map_entry k [] = refl
map_entry k (m ∷ l) = ap (◌∷◌ m) (map_entry k l)

pub map_entry-bucket :
    (k : Str) (l : List ChatMessage) → All (λ e. e.bucket ≡ k) (map (entry_of k) l)
map_entry-bucket k [] = tt
map_entry-bucket k (m ∷ l) = (refl, map_entry-bucket k l)

put_same : (k j : Str) (l l' : List ChatMessage) → j ≡ k → put j l' ((k, l) ∷ []) ≡ (k, l') ∷ []
unfolding put
put_same k j l l' e = ground (arith, e, str_beq_iff k j)

lookup_same : (k j : Str) (l : List ChatMessage) → j ≡ k → list_of (lookup j ((k, l) ∷ [])) ≡ l
unfolding lookup
lookup_same k j l e = ground (arith, e, str_beq_iff k j)

push_entry_same :
    (k : Str) (l : List ChatMessage) (e : Entry)
    → e.bucket ≡ k
    → push_entry e ((k, l) ∷ []) ≡ (k, l ++ e.message ∷ []) ∷ []
unfolding push_entry
push_entry_same k l e h =
    put_same k e.bucket l _ h ∙ ap (λ t. (k, t ++ e.message ∷ []) ∷ []) (lookup_same k e.bucket l h)

group_onto_one :
    (k : Str) (l : List ChatMessage) (es : List Entry)
    → All (λ e. e.bucket ≡ k) es
    → group_onto ((k, l) ∷ []) es ≡ (k, l ++ map (λ e. e.message) es) ∷ []
unfolding group_onto
group_onto_one k l [] h = ap (λ t. (k, t) ∷ []) (sym (append-nil l))
group_onto_one k l (e ∷ es) h =
    ap (λ b. group_onto b es) (push_entry_same k l e h.0)
    ∙ group_onto_one k (l ++ e.message ∷ []) es h.1
    ∙ ap (λ t. (k, t) ∷ []) (append_assoc l (e.message ∷ []) (map (λ e. e.message) es))

-- Only one bucket, or none if it has no message.
abbrev pub only : Str → List ChatMessage → MessageBuckets
only k [] = []
only k (m ∷ l) = (k, m ∷ l) ∷ []

pub group_one :
    (k : Str) (es : List Entry)
    → All (λ e. e.bucket ≡ k) es
    → group es ≡ only k (map (λ e. e.message) es)
unfolding group_onto push_entry lookup put
group_one k [] h = refl
group_one k (e ∷ es) h =
    ap (λ j. group_onto ((j, e.message ∷ []) ∷ []) es) h.0
    ∙ group_onto_one k (e.message ∷ []) es h.1

pub put_all-only : (k : Str) (l : List ChatMessage) → put_all [] (only k l) ≡ only k l
unfolding put
put_all-only k [] = refl
put_all-only k (m ∷ l) = refl

pub lookup-only : (k : Str) (l : List ChatMessage) → list_of (lookup k (only k l)) ≡ l
unfolding lookup
lookup-only k [] = refl
lookup-only k (m ∷ l) = lookup_same k k (m ∷ l) refl

pub append_message-only :
    (pk chat : Str) (l : List ChatMessage) (m : ChatMessage)
    → let k = bucket_key pk chat in append_message (only k l) pk chat m ≡ (k, l ++ m ∷ []) ∷ []
unfolding append_message lookup put
append_message-only pk chat [] m = refl
append_message-only pk chat (x ∷ l) m =
    let k = bucket_key pk chat in
    put_same k k (x ∷ l) (list_of (lookup k (only k (x ∷ l))) ++ m ∷ []) refl
    ∙ ap (λ t. (k, t ++ m ∷ []) ∷ []) (lookup-only k (x ∷ l))
