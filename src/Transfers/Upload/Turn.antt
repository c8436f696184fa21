-- ===== src/Transfers/Upload/Turn.antt =====
-- The two lists that the pump's loop over the subscribers makes: those that stay, and those done.
use cordia.Base.{
  All, Bool, Dict, List, Str, false, if◌then◌else◌, nat_eq, refl, str_eq, true, ◌∷◌, ◌≡◌,
}
use cordia.Transfers.Upload.{Subscriber}

pub split_done :
    (P Q : Subscriber → Type 0) (k : Str) (t : Subscriber) (l : Dict Str Subscriber)
    (r : List Subscriber) (b : Bool)
    → (b ≡ false → P t)
    → All (λ x. P x.1) l
    → (b ≡ true → Q t)
    → All Q r
    → let o : Dict Str Subscriber × List Subscriber = if b then (l, t ∷ r) else ((k, t) ∷ l, r) in
      All (λ x. P x.1) o.0 × All Q o.1
split_done P Q k t l r true p hl q hr = (hl, (q refl, hr))
split_done P Q k t l r false p hl q hr = ((p refl, hl), hr)
