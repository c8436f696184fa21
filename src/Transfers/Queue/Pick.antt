-- ===== src/Transfers/Queue/Pick.antt =====
-- Which entry leaves the queue.
use cordia.Base.{
  All, All-append, All-map, Bool-cases, List, [], ap, inl, inr, le_of_lt, le_trans, ltb, ltb→le,
  ltb→lt, nat_eq, refl, str_eq, subst, sym, ◌++◌, ◌<◌, ◌∷◌, ◌≡◌, ◌≤◌,
}
use cordia.Transfers.Queue.{QueuedDownloadRequest, size_of, take_smallest}

-- `p` is taken out of `all`, which leaves `rest`: what stood before it is larger, and what stood
-- after it is not smaller.
pub record IsFirstSmallest (all : List QueuedDownloadRequest) (p : QueuedDownloadRequest)
    (rest : List QueuedDownloadRequest) : Type 0 where
  pub before : List QueuedDownloadRequest
  pub after : List QueuedDownloadRequest
  pub whole : all ≡ before ++ p ∷ after
  pub left : rest ≡ before ++ after
  pub larger : All (λ x. size_of p < size_of x) before
  pub not_smaller : All (λ x. size_of p ≤ size_of x) after

-- The next download is the smallest of the queue, the earliest of equals; the others keep their
-- order.
pub take_smallest-IsFirstSmallest :
    (q : QueuedDownloadRequest) (qs : List QueuedDownloadRequest)
    → IsFirstSmallest (q ∷ qs) (take_smallest q qs).0 (take_smallest q qs).1
unfolding take_smallest
take_smallest-IsFirstSmallest best [] = record {
  before = [];
  after = [];
  whole = refl;
  left = refl;
  larger = tt;
  not_smaller = tt;
}
take_smallest-IsFirstSmallest best (q ∷ qs) =
    let ih = take_smallest-IsFirstSmallest q qs in
    let p = (take_smallest q qs).0 in
    elim (Bool-cases (ltb (size_of p) (size_of best))) [
      | inl e ↦ rw e (record {
        before = best ∷ ih.before;
        after = ih.after;
        whole = ap (◌∷◌ best) ih.whole;
        left = ap (◌∷◌ best) ih.left;
        larger = (ltb→lt _ _ e, ih.larger);
        not_smaller = ih.not_smaller;
      })
      | inr e ↦
          let low : size_of best ≤ size_of p = ltb→le _ _ e in
          rw e (record {
            before = [];
            after = q ∷ qs;
            whole = refl;
            left = refl;
            larger = tt;
            not_smaller = subst (All (λ x. size_of best ≤ size_of x)) (sym ih.whole) (
                All-append (λ x. size_of best ≤ size_of x) ih.before (p ∷ ih.after)
                  (All-map (λ x h. le_trans low (le_of_lt h)) ih.before ih.larger)
                  (low, All-map (λ x h. le_trans low h) ih.after ih.not_smaller));
          })
    ]
