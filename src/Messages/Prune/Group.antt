-- ===== src/Messages/Prune/Group.antt =====
-- What the grouping loop of pruneBuckets makes: each bucket gets its messages in the loop's order.
use mathlib.Core.List.{append_assoc}
use cordia.Base.{
  Bool-cases, HasDistinctKeys, List, Option, Str, [], ap, arith, if◌then◌else◌, inl, inr, keep,
  lookup, lookup-put, map, nat_eq, none, put-HasDistinctKeys, refl, some, str_beq_iff, str_eq, ◌++◌,
  ◌==◌, ◌∙◌, ◌∷◌, ◌≡◌,
}
use cordia.Messages.{ChatMessage, MessageBuckets}
use cordia.Messages.Buckets.{list_of}
use cordia.Messages.Prune.{Entry, push_entry, group_onto, group}

-- The messages of one bucket, in order.
abbrev pub messages_of : Str → List Entry → List ChatMessage
messages_of k es = map (λ e. e.message) (keep (λ e. e.bucket == k) es)

abbrev extend : Option (List ChatMessage) → List ChatMessage → Option (List ChatMessage)
extend o [] = o
extend o (m ∷ ms) = some (list_of o ++ m ∷ ms)

extend_one :
    (o : Option (List ChatMessage)) (m : ChatMessage) (ms : List ChatMessage)
    → extend (some (list_of o ++ m ∷ [])) ms ≡ some (list_of o ++ m ∷ ms)
extend_one o m [] = refl
extend_one o m (x ∷ xs) = ap some (append_assoc (list_of o) (m ∷ []) (x ∷ xs))

lookup-push_entry :
    (k : Str) (e : Entry) (candidate : MessageBuckets)
    → lookup k (push_entry e candidate) ≡ (
        if e.bucket == k
        then some (list_of (lookup k candidate) ++ e.message ∷ [])
        else lookup k candidate)
unfolding push_entry
lookup-push_entry k e candidate = ground (
  arith,
  lookup-put e.bucket k (list_of (lookup e.bucket candidate) ++ e.message ∷ []) candidate,
  str_beq_iff e.bucket k,
)

lookup-group_onto :
    (k : Str) (candidate : MessageBuckets) (es : List Entry)
    → lookup k (group_onto candidate es) ≡ extend (lookup k candidate) (messages_of k es)
unfolding group_onto
lookup-group_onto k candidate [] = refl
lookup-group_onto k candidate (e ∷ es) =
    lookup-group_onto k (push_entry e candidate) es ∙ elim (Bool-cases (e.bucket == k)) [
      | inl h ↦
          rw (lookup-push_entry k e candidate, h)
            (extend_one (lookup k candidate) e.message (messages_of k es))
      | inr h ↦ rw (lookup-push_entry k e candidate, h) refl
    ]

list_of-extend : (ms : List ChatMessage) → list_of (extend none ms) ≡ ms
list_of-extend [] = refl
list_of-extend (m ∷ ms) = refl

pub lookup-group : (k : Str) (es : List Entry) → list_of (lookup k (group es)) ≡ messages_of k es
unfolding lookup
lookup-group k es = ap list_of (lookup-group_onto k [] es) ∙ list_of-extend (messages_of k es)

group_onto-HasDistinctKeys :
    (candidate : MessageBuckets) (es : List Entry)
    → HasDistinctKeys candidate
    → HasDistinctKeys (group_onto candidate es)
unfolding group_onto push_entry
group_onto-HasDistinctKeys candidate [] h = h
group_onto-HasDistinctKeys candidate (e ∷ es) h =
    group_onto-HasDistinctKeys (push_entry e candidate) es (put-HasDistinctKeys _ _ candidate h)

pub group-HasDistinctKeys : (es : List Entry) → HasDistinctKeys (group es)
group-HasDistinctKeys es = group_onto-HasDistinctKeys [] es tt

pub lookup-group_absent :
    (k : Str) (es : List Entry) → messages_of k es ≡ [] → lookup k (group es) ≡ none
unfolding lookup
lookup-group_absent k es h = lookup-group_onto k [] es ∙ ap (extend none) h

pub group_nil : group [] ≡ []
unfolding group_onto
group_nil = refl
