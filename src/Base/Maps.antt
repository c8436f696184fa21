-- ===== src/Base/Maps.antt =====
-- `Map` and `Record<string, T>`: keys in the order of their first insertion. `Set` is a list of
-- distinct items.
use mathlib.Core.Path.{◌≡◌, refl}
use mathlib.Core.List.{List, [], ◌∷◌, ◌++◌}
use mathlib.Core.Bool.{Bool}
use mathlib.Core.Option.{Option, none, some}
use native.Mathlib.Omega.{arith}
use cordia.Base.Tests.{if◌then◌else◌, Key, ◌==◌}
use cordia.Base.Lists.{All, keep}

abbrev pub Dict {ℓ κ} : Type ℓ → Type κ → Type (ℓ ⊔ κ)
Dict K V = List (K × V)

module _ {ℓ κ} {K : Type ℓ} {V : Type κ} where
  unfoldable pub keys : Dict K V → List K
  keys [] = []
  keys ((k, v) ∷ m) = k ∷ keys m

-- Object.values(m).flat()
unfoldable pub flat {ℓ κ} : {K : Type ℓ} {V : Type κ} → Dict K (List V) → List V
flat [] = []
flat ((k, vs) ∷ m) = vs ++ flat m

module _ {ℓ κ} {K : Type ℓ} {V : Type κ} ⦃e : Key K⦄ where
  -- m.get(k), m[k]
  unfoldable pub lookup : K → Dict K V → Option V
  lookup k [] = none
  lookup k ((j, v) ∷ m) = if j == k then some v else lookup k m

  -- m.set(k, v), { ...m, [k]: v }
  unfoldable pub put : K → V → Dict K V → Dict K V
  put k v [] = (k, v) ∷ []
  put k v ((j, w) ∷ m) = if j == k then (j, v) ∷ m else (j, w) ∷ put k v m

  -- m.delete(k), delete m[k]
  unfoldable pub remove : K → Dict K V → Dict K V
  remove k [] = []
  remove k ((j, v) ∷ m) = let rest = remove k m in if j == k then rest else (j, v) ∷ rest

  -- No key stands twice, as in every `Map` and every object.
  abbrev pub HasDistinctKeys : Dict K V → Type κ
  HasDistinctKeys [] = Unit
  HasDistinctKeys ((k, v) ∷ m) = (lookup k m ≡ none) × HasDistinctKeys m

  pub lookup-put :
      (k j : K) (v : V) (m : Dict K V)
      → lookup j (put k v m) ≡ (if k == j then some v else lookup j m)
  unfolding lookup put
  lookup-put k j v [] = refl
  lookup-put k j v ((i, w) ∷ m) =
      ground (arith, e.same_iff k j, e.same_iff i k, e.same_iff i j, lookup-put k j v m)

  pub lookup-remove :
      (k j : K) (m : Dict K V) → lookup j (remove k m) ≡ (if k == j then none else lookup j m)
  unfolding lookup remove
  lookup-remove k j [] = ground arith
  lookup-remove k j ((i, v) ∷ m) =
      ground (arith, lookup-remove k j m, e.same_iff i k, e.same_iff i j, e.same_iff k j)

  -- Object.entries(m).filter(([k]) => p(k))
  abbrev pub keep_keys : (K → Bool) → Dict K V → Dict K V
  keep_keys p m = keep (λ b. p b.0) m

  -- A loop over `new` that sets each entry in `m`.
  abbrev pub put_all : Dict K V → Dict K V → Dict K V
  put_all m [] = m
  put_all m ((k, v) ∷ new) = put_all (put k v m) new

  pub lookup-keep_keys :
      (p : K → Bool) (k : K) (m : Dict K V)
      → lookup k (keep_keys p m) ≡ (if p k then lookup k m else none)
  unfolding lookup
  lookup-keep_keys p k [] = ground arith
  lookup-keep_keys p k ((j, v) ∷ m) = ground (arith, lookup-keep_keys p k m, e.same_iff j k)

  pub lookup-put_all :
      (k : K) (m new : Dict K V)
      → HasDistinctKeys new
      → lookup k (put_all m new) ≡ elim (lookup k new) [ none ↦ lookup k m | some v ↦ some v ]
  unfolding lookup
  lookup-put_all k m [] h = refl
  lookup-put_all k m ((j, v) ∷ new) h =
      ground (arith, lookup-put_all k (put j v m) new h.1, lookup-put j k v m, e.same_iff j k, h.0)

  pub put-HasDistinctKeys :
      (k : K) (v : V) (m : Dict K V) → HasDistinctKeys m → HasDistinctKeys (put k v m)
  unfolding put lookup
  put-HasDistinctKeys k v [] h = (refl, tt)
  put-HasDistinctKeys k v ((j, w) ∷ m) h = ground (
    arith,
    put-HasDistinctKeys k v m h.1,
    lookup-put k j v m,
    e.same_iff k j,
    e.same_iff j k,
    h.0,
  )

  module _ {μ} (P : V → Type μ) where
    pub All-put :
        (k : K) (v : V) (m : Dict K V) → P v → All (λ b. P b.1) m → All (λ b. P b.1) (put k v m)
    unfolding put
    All-put k v [] p h = (p, tt)
    All-put k v ((j, w) ∷ m) p h = ground (arith, All-put k v m p h.1)

    pub All-remove : (k : K) (m : Dict K V) → All (λ b. P b.1) m → All (λ b. P b.1) (remove k m)
    unfolding remove
    All-remove k [] h = tt
    All-remove k ((j, w) ∷ m) h = ground (arith, All-remove k m h.1)

    pub lookup-All : (k : K) (m : Dict K V) (v : V) → All (λ b. P b.1) m → lookup k m ≡ some v → P v
    unfolding lookup
    lookup-All k [] v h e = absurd (ground arith)
    lookup-All k ((j, w) ∷ m) v h e = ground (arith, lookup-All k m v h.1)
