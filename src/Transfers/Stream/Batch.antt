-- ===== src/Transfers/Stream/Batch.antt =====
-- A batch: the first bytes of the pending chunks, in order, none lost.
use mathlib.Core.List.{append_assoc, append-nil, flatten}
use cordia.Base.{
  Bool-cases, List, [], ap, arith, drop, inl, inr, leb, length, length-append, length-drop,
  length-take, nat_eq, refl, str_eq, suc, sym, take, take-append-drop, zero, ℕ, ◌++◌, ◌+◌, ◌-◌, ◌∙◌,
  ◌∷◌, ◌≡◌, ◌≤◌,
}
use cordia.Transfers.Stream.{Bytes, fill}

-- The bytes that wait in the chunks.
unfoldable pub total : List Bytes → ℕ
total [] = 0
total (c ∷ cs) = length c + total cs

pub total-append : (cs : List Bytes) (c : Bytes) → total (cs ++ c ∷ []) ≡ total cs + length c
unfolding total
total-append [] c = omega arith
total-append (d ∷ cs) c = omega (arith, total-append cs c)

pub flatten-append : (cs : List Bytes) (c : Bytes) → flatten (cs ++ c ∷ []) ≡ flatten cs ++ c
unfolding flatten
flatten-append [] c = append-nil c
flatten-append (d ∷ cs) c = rw (flatten-append cs c) (sym (append_assoc d (flatten cs) c))

pub fill-flatten : (n : ℕ) (cs : List Bytes) → (fill n cs).0 ++ flatten (fill n cs).1 ≡ flatten cs
unfolding fill flatten
fill-flatten zero cs = refl
fill-flatten (suc n) [] = refl
fill-flatten (suc n) (c ∷ cs) = elim (Bool-cases (leb (length c) (suc n))) [
  | inl whole ↦ rw whole (
      append_assoc c (fill (suc n - length c) cs).0 _
      ∙ ap (◌++◌ c) (fill-flatten (suc n - length c) cs))
  | inr split ↦ rw split (
      sym (append_assoc (take (suc n) c) (drop (suc n) c) (flatten cs))
      ∙ ap (λ b. b ++ flatten cs) (take-append-drop (suc n) c))
]

pub fill-length : (n : ℕ) (cs : List Bytes) → length (fill n cs).0 + (fill n cs).2 ≡ n
unfolding fill
fill-length zero cs = refl
fill-length (suc n) [] = omega arith
fill-length (suc n) (c ∷ cs) = ground (
  arith,
  fill-length (suc n - length c) cs,
  length-append c (fill (suc n - length c) cs).0,
  length-take (suc n) c,
)

pub fill-total : (n : ℕ) (cs : List Bytes) → length (fill n cs).0 + total (fill n cs).1 ≡ total cs
unfolding fill total
fill-total zero cs = omega arith
fill-total (suc n) [] = refl
fill-total (suc n) (c ∷ cs) = ground (
  arith,
  fill-total (suc n - length c) cs,
  length-append c (fill (suc n - length c) cs).0,
  length-take (suc n) c,
  length-drop (suc n) c,
)

-- A batch no larger than what is pending is filled to the last byte.
pub fill-missing : (n : ℕ) (cs : List Bytes) → n ≤ total cs → (fill n cs).2 ≡ 0
unfolding fill total
fill-missing zero cs h = refl
fill-missing (suc n) [] h = absurd (omega arith)
fill-missing (suc n) (c ∷ cs) h = ground (arith, fill-missing (suc n - length c) cs)

pub total-eq-zero : (cs : List Bytes) → total cs ≡ 0 → flatten cs ≡ []
unfolding total flatten
total-eq-zero [] h = refl
total-eq-zero ([] ∷ cs) h = total-eq-zero cs (omega arith)
total-eq-zero ((b ∷ c) ∷ cs) h = absurd (omega arith)
