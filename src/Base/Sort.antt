-- ===== src/Base/Sort.antt =====
-- `Array.prototype.sort` by a numeric key: a stable sort, so equal keys keep their order.
use Prim.Native.Nat.{ℕ, zero, suc, ◌≤◌}
use mathlib.Core.Path.{◌≡◌}
use mathlib.Core.Logic.{inl, inr}
use mathlib.Core.Bool.{Bool, true}
use mathlib.Core.List.{List, [], ◌∷◌, Perm}
use mathlib.Core.List.Perm
use mathlib.Core.Option.{some}
use native.Mathlib.Omega.{arith}
use cordia.Base.Tests.{if◌then◌else◌, leb, Bool-cases}
use cordia.Base.Lists.{All, find, take, drop, All-map, All-drop}

module _ {ℓ} {A : Type ℓ} (key : A → ℕ) where
  -- `x` goes before the first item whose key is not smaller.
  unfoldable pub insert_by : A → List A → List A
  insert_by x [] = x ∷ []
  insert_by x (y ∷ ys) = if leb (key x) (key y) then x ∷ y ∷ ys else y ∷ insert_by x ys

  unfoldable pub sort_by : List A → List A
  unfolding insert_by
  sort_by [] = []
  sort_by (x ∷ xs) = insert_by x (sort_by xs)

  abbrev pub IsSortedBy : List A → Type 0
  IsSortedBy [] = Unit
  IsSortedBy (x ∷ xs) = All (λ y. key x ≤ key y) xs × IsSortedBy xs

  insert_by-All {κ} :
      (P : A → Type κ) (x : A) (xs : List A) → P x → All P xs → All P (insert_by x xs)
  unfolding insert_by
  insert_by-All P x [] px h = (px, tt)
  insert_by-All P x (y ∷ ys) px h = ground (arith, insert_by-All P x ys px h.1)

  pub sort_by-All {κ} : (P : A → Type κ) (xs : List A) → All P xs → All P (sort_by xs)
  unfolding sort_by
  sort_by-All P [] h = tt
  sort_by-All P (x ∷ xs) h = insert_by-All P x (sort_by xs) h.0 (sort_by-All P xs h.1)

  All-insert_by {κ} :
      (P : A → Type κ) (x : A) (xs : List A) → All P (insert_by x xs) → P x × All P xs
  unfolding insert_by
  All-insert_by P x [] h = h
  All-insert_by P x (y ∷ ys) h = ground (arith, All-insert_by P x ys)

  pub All-sort_by {κ} : (P : A → Type κ) (xs : List A) → All P (sort_by xs) → All P xs
  unfolding sort_by
  All-sort_by P [] h = tt
  All-sort_by P (x ∷ xs) h =
      let both = All-insert_by P x (sort_by xs) h in (both.0, All-sort_by P xs both.1)

  All-le_trans :
      (a b : A) (xs : List A)
      → key a ≤ key b
      → All (λ y. key b ≤ key y) xs
      → All (λ y. key a ≤ key y) xs
  All-le_trans a b [] h k = tt
  All-le_trans a b (x ∷ xs) h k = (omega arith, All-le_trans a b xs h k.1)

  insert_by-IsSortedBy : (x : A) (xs : List A) → IsSortedBy xs → IsSortedBy (insert_by x xs)
  unfolding insert_by
  insert_by-IsSortedBy x [] h = (tt, tt)
  insert_by-IsSortedBy x (y ∷ ys) h = ground (
    arith,
    All-le_trans x y ys,
    insert_by-All (λ z. key y ≤ key z) x ys,
    insert_by-IsSortedBy x ys h.1,
  )

  pub sort_by-IsSortedBy : (xs : List A) → IsSortedBy (sort_by xs)
  unfolding sort_by
  sort_by-IsSortedBy [] = tt
  sort_by-IsSortedBy (x ∷ xs) = insert_by-IsSortedBy x (sort_by xs) (sort_by-IsSortedBy xs)

  -- What is taken is not above what is left.
  pub take-IsBelow_drop :
      (n : ℕ) (xs : List A)
      → IsSortedBy xs
      → All (λ x. All (λ y. key x ≤ key y) (drop n xs)) (take n xs)
  take-IsBelow_drop zero xs h = tt
  take-IsBelow_drop (suc n) [] h = tt
  take-IsBelow_drop (suc n) (x ∷ xs) h =
      (All-drop (λ y. key x ≤ key y) n xs h.0, take-IsBelow_drop n xs h.1)

  insert_by-perm : (x : A) (xs : List A) → Perm (insert_by x xs) (x ∷ xs)
  unfolding insert_by
  insert_by-perm x [] = Perm.refl _
  insert_by-perm x (y ∷ ys) = ground (
    arith,
    Perm.refl (x ∷ y ∷ ys),
    Perm.trans (Perm.cons y (insert_by-perm x ys)) (Perm.swap x y ys),
  )

  pub sort_by-perm : (xs : List A) → Perm (sort_by xs) xs
  unfolding sort_by
  sort_by-perm [] = Perm.refl _
  sort_by-perm (x ∷ xs) = Perm.trans (insert_by-perm x (sort_by xs)) (Perm.cons x (sort_by-perm xs))

  -- The first item that passes a test has the least key of those that pass.
  pub find-least :
      (p : A → Bool) (xs : List A) (a : A)
      → IsSortedBy xs
      → find p xs ≡ some a
      → All (λ x. p x ≡ true → key a ≤ key x) xs
  find-least p [] a h e = tt
  find-least p (x ∷ xs) a h e = elim (Bool-cases (p x)) [
    | inl hit ↦
        let same : x ≡ a = ground arith in
        (λ _. ground arith, All-map (λ y k _. rw (← same) k) xs h.0)
    | inr miss ↦ (λ hit. absurd (cc), find-least p xs a h.1 (ground arith))
  ]
