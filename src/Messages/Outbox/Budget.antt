-- ===== src/Messages/Outbox/Budget.antt =====
-- The byte budget of a tick.
use cordia.Base.{
  Bool-cases, Dict, List, Option, Option-cases, Str, [], arith, if◌then◌else◌, inl, inr, lookup,
  lookup-put, ltb, ltb→le, nat_eq, put, refl, str_beq_iff, str_eq, subst, ℕ, ◌+◌, ◌==◌, ◌∷◌, ◌≡◌,
  ◌≤◌,
}
use cordia.Messages.{ChatMessage}
use cordia.Messages.Outbox.{
  Pending, Send, Tick, spent_on, max_budget_bytes, estimate, payload_for, charge, retry, retry_all,
  tick,
}

-- What the sends to a server were charged.
abbrev pub charged_to : Str → List Send → ℕ
charged_to signing_pubkey [] = 0
charged_to signing_pubkey (s ∷ sends) =
    (if s.signing_pubkey == signing_pubkey then s.charged else 0) + charged_to signing_pubkey sends

module _ (payload_bytes : ChatMessage → ℕ) (encrypt : Str → ChatMessage → Option Str)
    (max_sync_kb : Str → ℕ) where
  -- The books are right, and no server is over its budget.
  pub record IsWithinBudget (t : Tick) : Type 0 where
    pub booked : (pk : Str) → charged_to pk t.sends ≡ spent_on (lookup pk t.used)
    pub bounded : (pk : Str) → charged_to pk t.sends ≤ max_budget_bytes max_sync_kb pk

  booked_after :
      (own pk : Str) (n : ℕ) (used : Dict Str ℕ)
      → spent_on (lookup pk (put own (spent_on (lookup own used) + n) used))
        ≡ (if own == pk then n else 0) + spent_on (lookup pk used)
  booked_after own pk n used =
      ground (arith, lookup-put own pk (spent_on (lookup own used) + n) used, str_beq_iff own pk)

  charge-IsWithinBudget :
      (p : Pending) (payload : Str) (t : Tick)
      → spent_on (lookup p.message.signing_pubkey t.used) + estimate payload_bytes p
        ≤ max_budget_bytes max_sync_kb p.message.signing_pubkey
      → IsWithinBudget t
      → IsWithinBudget (charge payload_bytes encrypt max_sync_kb p payload t)
  unfolding charge
  charge-IsWithinBudget p payload t room w =
      let own = p.message.signing_pubkey in
      record {
        booked = λ pk.
            ground (arith, booked_after own pk (estimate payload_bytes p) t.used, w.booked pk);
        bounded = λ pk. elim (Bool-cases (own == pk)) [
          | inl same ↦
              subst
                (λ k.
                  charged_to k (charge payload_bytes encrypt max_sync_kb p payload t).sends
                  ≤ max_budget_bytes max_sync_kb k)
                ((str_beq_iff own pk).0 same)
                (ground (arith, room, w.booked own, str_beq_iff own own))
          | inr other ↦ ground (arith, w.bounded pk)
        ];
      }

  retry-IsWithinBudget :
      (p : Pending) (t : Tick)
      → IsWithinBudget t
      → IsWithinBudget (retry payload_bytes encrypt max_sync_kb p t)
  unfolding retry
  retry-IsWithinBudget p t w =
      let own = p.message.signing_pubkey in
      elim (Bool-cases (
        ltb (max_budget_bytes max_sync_kb own)
          (spent_on (lookup own t.used) + estimate payload_bytes p))) [
            | inl over ↦ rw over w
            | inr room ↦ rw room (elim (Option-cases (payload_for encrypt p)) [
              | inl e ↦ rw e w
              | inr (payload, e) ↦ rw e (charge-IsWithinBudget p payload t (ltb→le _ _ room) w)
            ])
          ]

  retry_all-IsWithinBudget :
      (ps : List Pending) (t : Tick)
      → IsWithinBudget t
      → IsWithinBudget (retry_all payload_bytes encrypt max_sync_kb ps t)
  unfolding retry_all
  retry_all-IsWithinBudget [] t w = w
  retry_all-IsWithinBudget (p ∷ ps) t w =
      retry_all-IsWithinBudget ps (retry payload_bytes encrypt max_sync_kb p t)
        (retry-IsWithinBudget p t w)

  -- In a tick no server is charged more than its budget.
  pub tick-within_budget :
      (time_of : Str → ℕ) (me : Str) (buckets : Dict Str (List Pending)) (signing_pubkey : Str)
      → charged_to signing_pubkey (tick payload_bytes encrypt max_sync_kb time_of me buckets).sends
        ≤ max_budget_bytes max_sync_kb signing_pubkey
  unfolding tick
  tick-within_budget time_of me buckets pk =
      (retry_all-IsWithinBudget _ (record { used = []; sends = [] })
          (record { booked = λ k. unfold lookup in refl; bounded = λ k. omega arith })).bounded
        pk
