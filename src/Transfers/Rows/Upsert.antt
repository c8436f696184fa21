-- ===== src/Transfers/Rows/Upsert.antt =====
-- What `upsertTransfer` and `upsertHistory` do to the rows.
use cordia.Base.{
  Bool, Bool-cases, List, Option, Option-cases, Str, [], any, arith, false, find, if◌then◌else◌,
  inl, inr, length, length-take, nat_eq, none, refl, some, str_beq_iff, str_eq, true, ◌++◌, ◌==◌,
  ◌∷◌, ◌≡◌, ◌≤◌,
}
use cordia.Transfers.Rows.Unique.{
  IsUnique, update_first-IsUnique, remove_first-IsUnique, append_one-IsUnique, take-IsUnique,
}
use cordia.Transfers.Rows.{
  Transfer, HistoryEntry, update_first, remove_first, has_id, entry_has_id, upsert_transfer,
  upsert_history, max_history, history_new, history_old,
}

-- An updater that keeps the id of the row.
abbrev pub KeepsId : Str → (Option Transfer → Transfer) → Type 0
KeepsId id f =
    ((f none).request_id ≡ id) × ((t : Transfer) → t.request_id ≡ id → (f (some t)).request_id ≡ id)

any_of_find-none :
    (id : Str) (xs : List Transfer) → any (has_id id) xs ≡ false → find (has_id id) xs ≡ none
any_of_find-none id [] h = refl
any_of_find-none id (x ∷ xs) h = ground (arith, any_of_find-none id xs)

find-update_first :
    (id k : Str) (f : Option Transfer → Transfer) (xs : List Transfer)
    → ((t : Transfer) → t.request_id ≡ id → (f (some t)).request_id ≡ id)
    → any (has_id id) xs ≡ true
    → find (has_id k) (update_first (has_id id) (λ t. f (some t)) xs)
      ≡ (if id == k then some (f (find (has_id id) xs)) else find (has_id k) xs)
unfolding update_first
find-update_first id k f [] h e = absurd (cc)
find-update_first id k f (x ∷ xs) h e = ground (
  arith,
  find-update_first id k f xs h,
  h x,
  str_beq_iff x.request_id id,
  str_beq_iff x.request_id k,
  str_beq_iff (f (some x)).request_id k,
  str_beq_iff id k,
)

find-append_one :
    (k : Str) (xs : List Transfer) (a : Transfer)
    → find (has_id k) (xs ++ a ∷ [])
      ≡ elim (find (has_id k) xs) [ none ↦ if has_id k a then some a else none | some t ↦ some t ]
find-append_one k [] a = ground arith
find-append_one k (x ∷ xs) a = ground (arith, find-append_one k xs a)

-- `upsertTransfer` changes the row of its request, creating it if need be, and no other row.
find-upsert_transfer :
    (id k : Str) (f : Option Transfer → Transfer) (rows : List Transfer)
    → KeepsId id f
    → find (has_id k) (upsert_transfer id f rows)
      ≡ (if id == k then some (f (find (has_id id) rows)) else find (has_id k) rows)
unfolding upsert_transfer
find-upsert_transfer id k f rows h = elim (Bool-cases (any (has_id id) rows)) [
  | inl e ↦ rw e (find-update_first id k f rows h.1 e)
  | inr e ↦ rw e (
      ground (
        arith,
        find-append_one k rows (f none),
        any_of_find-none id rows e,
        str_beq_iff id k,
        str_beq_iff (f none).request_id k,
        h.0,
      ))
]

-- `upsertTransfer` keeps one row for each request, for an updater that keeps the id.
upsert_transfer-IsUnique :
    (id : Str) (f : Option Transfer → Transfer) (rows : List Transfer)
    → KeepsId id f
    → IsUnique (λ t. t.request_id) rows
    → IsUnique (λ t. t.request_id) (upsert_transfer id f rows)
unfolding upsert_transfer
upsert_transfer-IsUnique id f rows h u = elim (Bool-cases (any (has_id id) rows)) [
  | inl e ↦ rw e (update_first-IsUnique (λ t. t.request_id) id (λ t. f (some t)) rows h.1 u)
  | inr e ↦ rw e (append_one-IsUnique (λ t. t.request_id) rows (f none) (rw h.0 e) u)
]

-- What every list of history rows satisfies: the bound, and an id for each row.
pub record IsHistory (rows : List HistoryEntry) : Type 0 where
  pub bounded : length rows ≤ max_history
  pub unique : IsUnique (λ h. h.request_id) rows

-- The updater's row, if any, has the id.
abbrev pub MakesId : Str → (Option HistoryEntry → Option HistoryEntry) → Type 0
MakesId id f = (o : Option HistoryEntry) (h : HistoryEntry) → f o ≡ some h → h.request_id ≡ id

length-update_first :
    (p : HistoryEntry → Bool) (f : HistoryEntry → HistoryEntry) (xs : List HistoryEntry)
    → length (update_first p f xs) ≡ length xs
unfolding update_first
length-update_first p f [] = refl
length-update_first p f (x ∷ xs) = ground (arith, length-update_first p f xs)

length-remove_first :
    (p : HistoryEntry → Bool) (xs : List HistoryEntry) → length (remove_first p xs) ≤ length xs
unfolding remove_first
length-remove_first p [] = omega arith
length-remove_first p (x ∷ xs) = ground (arith, length-remove_first p xs)

any_of_find :
    (id : Str) (xs : List HistoryEntry)
    → find (entry_has_id id) xs ≡ none
    → any (entry_has_id id) xs ≡ false
any_of_find id [] h = refl
any_of_find id (x ∷ xs) h = ground (arith, any_of_find id xs)

history_new-IsHistory :
    (id : Str) (o : Option HistoryEntry) (rows : List HistoryEntry)
    → ((h : HistoryEntry) → o ≡ some h → h.request_id ≡ id)
    → any (entry_has_id id) rows ≡ false
    → IsHistory rows
    → IsHistory (history_new o rows)
unfolding history_new
history_new-IsHistory id none rows h e w = w
history_new-IsHistory id (some a) rows h e w = record {
  bounded = omega (arith, length-take max_history (a ∷ rows));
  unique = take-IsUnique (λ h. h.request_id) max_history (a ∷ rows) (rw (h a refl) e, w.unique);
}

history_old-IsHistory :
    (id : Str) (old : HistoryEntry) (o : Option HistoryEntry) (rows : List HistoryEntry)
    → ((h : HistoryEntry) → o ≡ some h → h.request_id ≡ id)
    → IsHistory rows
    → IsHistory (history_old id old o rows)
unfolding history_old
history_old-IsHistory id old none rows h w = record {
  bounded = omega (arith, length-remove_first (entry_has_id id) rows, w.bounded);
  unique = remove_first-IsUnique (λ h. h.request_id) (entry_has_id id) rows w.unique;
}
history_old-IsHistory id old (some a) rows h w = record {
  bounded = omega (arith, length-update_first (entry_has_id id) (λ _. a) rows, w.bounded);
  unique = update_first-IsUnique (λ h. h.request_id) id (λ _. a) rows (λ _ _. h a refl) w.unique;
}

-- `upsertHistory` keeps at most 300 rows and one row for each request, whether its updater creates,
-- changes, deletes or declines.
upsert_history-IsHistory :
    (id : Str) (f : Option HistoryEntry → Option HistoryEntry) (rows : List HistoryEntry)
    → MakesId id f
    → IsHistory rows
    → IsHistory (upsert_history id f rows)
unfolding upsert_history
upsert_history-IsHistory id f rows h w = elim (Option-cases (find (entry_has_id id) rows)) [
  | inl e ↦
      rw (e, upsert_history)
        (history_new-IsHistory id (f none) rows (h none) (any_of_find id rows e) w)
  | inr (old, e) ↦
      rw (e, upsert_history) (history_old-IsHistory id old (f (some old)) rows (h (some old)) w)
]
