-- ===== src/Messages/Buckets/Receipts.antt =====
-- What a receipt does to the buckets, and that a repeated receipt does nothing.
use cordia.Base.{
  Bool-cases, List, Option-cases, Str, [], any, ap, arith, contains, false, if◌then◌else◌, inl, inr,
  lookup, lookup-put, map, nat_eq, put, refl, some, str_beq_iff, str_eq, sym, true, ◌++◌, ◌==◌, ◌∙◌,
  ◌∷◌, ◌≡◌, ◌⊎◌,
}
use cordia.Messages.{ChatMessage, MessageBuckets}
use cordia.Messages.Buckets.{
  bucket_key, readers, is_news, acknowledge, IncomingReceipt, is_receipt, receipt_in, on_receipt,
  list_of,
}

contains-append_last : (xs : List Str) (a : Str) → contains (xs ++ a ∷ []) a ≡ true
contains-append_last [] a = ground (arith, str_beq_iff a a)
contains-append_last (x ∷ xs) a = ground (arith, contains-append_last xs a)

is_news-acknowledge : (r : IncomingReceipt) (m : ChatMessage) → is_news r (acknowledge r m) ≡ false
unfolding acknowledge
is_news-acknowledge r m = ground (arith, contains-append_last (readers m) r.from_user_id)

no_news :
    (r : IncomingReceipt) (ms : List ChatMessage) → any (is_news r) (map (acknowledge r) ms) ≡ false
no_news r [] = refl
no_news r (m ∷ ms) = ground (arith, is_news-acknowledge r m, no_news r ms)

acknowledge_old :
    (r : IncomingReceipt) (ms : List ChatMessage)
    → any (is_news r) ms ≡ false
    → map (acknowledge r) ms ≡ ms
unfolding acknowledge
acknowledge_old r [] h = refl
acknowledge_old r (m ∷ ms) h = ground (arith, acknowledge_old r ms)

-- A receipt with news changes the list of its key, any other nothing.
on_receipt-cases :
    (r : IncomingReceipt) (prev : MessageBuckets)
    → is_receipt r ≡ true
    → let key = bucket_key r.signing_pubkey r.chat_id in
      ((on_receipt r prev ≡ prev)
        × (map (acknowledge r) (list_of (lookup key prev)) ≡ list_of (lookup key prev)))
      ⊎ ((list : List ChatMessage) × (lookup key prev ≡ some list)
          × (on_receipt r prev ≡ put key (map (acknowledge r) list) prev))
unfolding on_receipt receipt_in
on_receipt-cases r prev h =
    elim (Option-cases (lookup (bucket_key r.signing_pubkey r.chat_id) prev)) [
      | inl e ↦ inl (rw (h, e) refl, rw e refl)
      | inr (list, e) ↦ elim (Bool-cases (any (is_news r) list)) [
        | inl new ↦ inr (list, e, rw (h, e, new) refl)
        | inr old ↦ inl (rw (h, e, old) refl, rw e (acknowledge_old r list old))
      ]
    ]

-- After a receipt, the list of its server and chat has the message acknowledged, and every other
-- list is as it was.
lookup-on_receipt :
    (r : IncomingReceipt) (prev : MessageBuckets) (key : Str)
    → is_receipt r ≡ true
    → list_of (lookup key (on_receipt r prev)) ≡ (
        if bucket_key r.signing_pubkey r.chat_id == key
        then map (acknowledge r) (list_of (lookup key prev))
        else list_of (lookup key prev))
lookup-on_receipt r prev key h =
    let own = bucket_key r.signing_pubkey r.chat_id in
    let is_own : (own == key) ≡ true → own ≡ key = (str_beq_iff own key).0 in
    elim (on_receipt-cases r prev h) [
      | inl (same, old) ↦ rw same (elim (Bool-cases (own == key)) [
        | inl e ↦ rw (← is_own e, (str_beq_iff own own).1 refl) (sym old)
        | inr e ↦ rw e refl
      ])
      | inr (list, e, new) ↦
          rw new (ground (arith, lookup-put own key (map (acknowledge r) list) prev, is_own, e))
    ]

-- Nothing is new in a list that the receipt has been through.
on_receipt_again :
    (r : IncomingReceipt) (q : MessageBuckets) (list : List ChatMessage)
    → lookup (bucket_key r.signing_pubkey r.chat_id) q ≡ some (map (acknowledge r) list)
    → is_receipt r ≡ true
    → on_receipt r q ≡ q
unfolding on_receipt receipt_in
on_receipt_again r q list e h = rw (h, e, no_news r list) refl

-- A receipt that comes again changes nothing.
on_receipt-on_receipt :
    (r : IncomingReceipt) (prev : MessageBuckets)
    → is_receipt r ≡ true
    → on_receipt r (on_receipt r prev) ≡ on_receipt r prev
on_receipt-on_receipt r prev h = elim (on_receipt-cases r prev h) [
  | inl (same, _) ↦ ap (on_receipt r) same
  | inr (list, e, new) ↦
      let key = bucket_key r.signing_pubkey r.chat_id in
      let after = put key (map (acknowledge r) list) prev in
      let found : lookup key after ≡ some (map (acknowledge r) list) =
        ground (arith, lookup-put key key (map (acknowledge r) list) prev, str_beq_iff key key) in
      ap (on_receipt r) new ∙ on_receipt_again r after list found h ∙ sym new
]
