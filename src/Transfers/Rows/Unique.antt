-- ===== src/Transfers/Rows/Unique.antt =====
-- Lists in which each id stands once.
use cordia.Base.{
  Bool, List, Str, [], any, arith, false, nat_eq, refl, str_beq_iff, str_eq, suc, take, zero, ℕ,
  ◌++◌, ◌==◌, ◌||◌, ◌∷◌, ◌≡◌,
}
use cordia.Transfers.Rows.{update_first, remove_first}

module _ {ℓ} {A : Type ℓ} (id_of : A → Str) where
  -- Each id stands once.
  abbrev pub IsUnique : List A → Type 0
  IsUnique [] = Unit
  IsUnique (x ∷ xs) = (any (λ y. id_of y == id_of x) xs ≡ false) × IsUnique xs

  any-update_first :
      (id k : Str) (f : A → A) (xs : List A)
      → ((x : A) → id_of x ≡ id → id_of (f x) ≡ id)
      → any (λ y. id_of y == k) (update_first (λ y. id_of y == id) f xs)
        ≡ any (λ y. id_of y == k) xs
  unfolding update_first
  any-update_first id k f [] h = refl
  any-update_first id k f (x ∷ xs) h =
      ground (arith, any-update_first id k f xs h, h x, str_beq_iff (id_of x) id)

  pub update_first-IsUnique :
      (id : Str) (f : A → A) (xs : List A)
      → ((x : A) → id_of x ≡ id → id_of (f x) ≡ id)
      → IsUnique xs
      → IsUnique (update_first (λ y. id_of y == id) f xs)
  unfolding update_first
  update_first-IsUnique id f [] h u = tt
  update_first-IsUnique id f (x ∷ xs) h u = ground (
    arith,
    update_first-IsUnique id f xs h u.1,
    any-update_first id (id_of x) f xs h,
    h x,
    str_beq_iff (id_of x) id,
  )

  any-remove_first :
      (p : A → Bool) (k : Str) (xs : List A)
      → any (λ y. id_of y == k) xs ≡ false
      → any (λ y. id_of y == k) (remove_first p xs) ≡ false
  unfolding remove_first
  any-remove_first p k [] h = refl
  any-remove_first p k (x ∷ xs) h = ground (arith, any-remove_first p k xs)

  pub remove_first-IsUnique :
      (p : A → Bool) (xs : List A) → IsUnique xs → IsUnique (remove_first p xs)
  unfolding remove_first
  remove_first-IsUnique p [] u = tt
  remove_first-IsUnique p (x ∷ xs) u =
      ground (arith, remove_first-IsUnique p xs u.1, any-remove_first p (id_of x) xs)

  any-append_one :
      (k : Str) (xs : List A) (a : A)
      → any (λ y. id_of y == k) (xs ++ a ∷ []) ≡ (any (λ y. id_of y == k) xs || (id_of a == k))
  any-append_one k [] a = ground arith
  any-append_one k (x ∷ xs) a = ground (arith, any-append_one k xs a)

  pub append_one-IsUnique :
      (xs : List A) (a : A)
      → any (λ y. id_of y == id_of a) xs ≡ false
      → IsUnique xs
      → IsUnique (xs ++ a ∷ [])
  append_one-IsUnique [] a h u = (refl, tt)
  append_one-IsUnique (x ∷ xs) a h u = ground (
    arith,
    append_one-IsUnique xs a,
    any-append_one (id_of x) xs a,
    str_beq_iff (id_of a) (id_of x),
    str_beq_iff (id_of x) (id_of a),
  )

  any-take :
      (n : ℕ) (k : Str) (xs : List A)
      → any (λ y. id_of y == k) xs ≡ false
      → any (λ y. id_of y == k) (take n xs) ≡ false
  any-take zero k xs h = refl
  any-take (suc n) k [] h = refl
  any-take (suc n) k (x ∷ xs) h = ground (arith, any-take n k xs)

  pub take-IsUnique : (n : ℕ) (xs : List A) → IsUnique xs → IsUnique (take n xs)
  take-IsUnique zero xs u = tt
  take-IsUnique (suc n) [] u = tt
  take-IsUnique (suc n) (x ∷ xs) u = (any-take n (id_of x) xs u.0, take-IsUnique n xs u.1)
