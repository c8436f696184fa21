-- ===== src/Calls/Swap/Stands.antt =====
-- Where a swap stands at each await, and that the end of an await keeps it so.
use cordia.Base.{
  All, All-map, Bool, Dict, List, Option, [], arith, contains, contains-append_one, contains-keep,
  eqb_iff, false, if◌then◌else◌, leb, nat_eq, none, not, refl, some, str_eq, subst, true, ℕ, ◌++◌,
  ◌==◌, ◌||◌, ◌∷◌, ◌≡◌, ◌≤◌, ◌⊎◌,
}
use cordia.Calls.Swap.{
  SwapJob, Swap, idle, reinitializing, starting, replacing, rolling_back, ended, Microphone,
  retrack, roll_back, conclude, replace_each, swap_all, on_started, replace_next, on_replaced,
  restore_next, on_restored,
}

-- The old meter and its track are in use, and what joined has a number from `n` on.
abbrev pub IsUntouched : ℕ → ℕ → Microphone → Type 0
IsUntouched old n s = (s.meter ≡ some old) × (s.stream ≡ some (old, true)) × (n ≤ s.next_sender)

abbrev pub HasTrack : ℕ → ℕ × ℕ → Type 0
HasTrack track b = b.1 ≡ track

-- A sender that the loop comes to, or one that joined.
abbrev pub IsOnWay : ℕ → ℕ → ℕ → List ℕ → List ℕ → List ℕ → ℕ × ℕ → Type 0
IsOnWay old n new ahead swapped refused b =
    ((b.1 ≡ new) × (contains swapped b.0 ≡ true))
    ⊎ ((b.1 ≡ old) × (leb n b.0 || contains ahead b.0 || contains refused b.0 ≡ true))

abbrev pub IsGoingBack : ℕ → List ℕ → ℕ × ℕ → Type 0
IsGoingBack old ahead b = (b.1 ≡ old) ⊎ (contains ahead b.0 ≡ true)

-- When the swap has succeeded, the new meter is in use and every sender has its track, except senders
-- that joined meanwhile, which may have the track of the old meter, which does not run. When it has
-- failed, the old meter is in use, and every sender has its track.
abbrev pub Stands : ℕ → ℕ → Swap → Microphone → Type 0
Stands old n idle s = IsUntouched old n s × All (HasTrack old) s.senders
Stands old n reinitializing s = ⊥
Stands old n (starting meter track ids) s =
    IsUntouched old n s
    × (meter ≡ old)
    × (track ≡ old)
    × All (λ b. (b.1 ≡ old) × (leb n b.0 || contains ids b.0 ≡ true)) s.senders
Stands old n (replacing job) s =
    IsUntouched old n s
    × (job.old_meter ≡ old)
    × (job.old_track ≡ old)
    × All (IsOnWay old n job.new_track job.ahead job.successful job.failed_senders) s.senders
Stands old n (rolling_back job) s =
    IsUntouched old n s × (job.old_track ≡ old) × All (IsGoingBack old job.ahead) s.senders
Stands old n (ended none) s =
    (new : ℕ) × (s.meter ≡ some new)
    × (s.stream ≡ some (new, true))
    × (contains s.running old ≡ false)
    × All (λ b. (b.1 ≡ new) ⊎ ((b.1 ≡ old) × (n ≤ b.0))) s.senders
Stands old n (ended (some e)) s = IsUntouched old n s × All (HasTrack old) s.senders

abbrev pub IsWhole : ℕ → ℕ → Microphone → Type 0
IsWhole old n s = Stands old n s.swap s

All-retrack :
    (P Q : ℕ × ℕ → Type 0) (sender track : ℕ) (senders : Dict ℕ ℕ)
    → ((b : ℕ × ℕ) → P b → Q (b.0, if b.0 == sender then track else b.1))
    → All P senders
    → All Q (retrack sender track senders)
unfolding retrack
All-retrack P Q sender track [] f h = tt
All-retrack P Q sender track (b ∷ senders) f h =
    (f b h.0, All-retrack P Q sender track senders f h.1)

module _ (old n : ℕ) where
  roll_back-IsWhole :
      (job : SwapJob) (ahead : List ℕ) (s : Microphone)
      → IsUntouched old n s
      → job.old_track ≡ old
      → All (IsGoingBack old ahead) s.senders
      → IsWhole old n (roll_back job ahead s)
  unfolding roll_back
  roll_back-IsWhole job [] s u t h = (u, All-map (λ b k. ground (arith, k)) s.senders h)
  roll_back-IsWhole job (sender ∷ ahead) s u t h = (u, t, h)

  conclude-IsWhole :
      (job : SwapJob) (refused : List ℕ) (s : Microphone)
      → IsUntouched old n s
      → job.old_meter ≡ old
      → job.old_track ≡ old
      → All (IsOnWay old n job.new_track [] job.successful refused) s.senders
      → IsWhole old n (conclude job refused s)
  unfolding conclude
  conclude-IsWhole job [] s u m t h = (
    job.new_track,
    refl,
    refl,
    ground (
      arith,
      contains-keep (λ other. not (other == job.old_meter)) old s.running,
      eqb_iff old job.old_meter,
      m,
    ),
    All-map (λ b k. ground (arith, k)) s.senders h,
  )
  conclude-IsWhole job (sender ∷ refused) s u m t h =
      roll_back-IsWhole job job.successful s u t (All-map (λ b k. ground (arith, k)) s.senders h)

  replace_each-IsWhole :
      (job : SwapJob) (ahead : List ℕ) (s : Microphone)
      → IsUntouched old n s
      → job.old_meter ≡ old
      → job.old_track ≡ old
      → All (IsOnWay old n job.new_track ahead job.successful job.failed_senders) s.senders
      → IsWhole old n (replace_each job ahead s)
  unfolding replace_each
  replace_each-IsWhole job [] s u m t h = conclude-IsWhole job job.failed_senders s u m t h
  replace_each-IsWhole job (sender ∷ ahead) s u m t h = (u, m, t, h)

  swap_all-IsWhole :
      (device : Option ℕ) (meter track : ℕ) (ids : List ℕ) (s : Microphone)
      → Stands old n (starting meter track ids) s
      → IsWhole old n (swap_all device meter track ids s)
  unfolding swap_all
  swap_all-IsWhole none meter track ids s (u, m, t, h) = (u, All-map (λ b k. k.0) s.senders h)
  swap_all-IsWhole (some new) meter track ids s (u, m, t, h) =
      replace_each-IsWhole _ ids _ u m t (All-map (λ b k. ground (arith, k)) s.senders h)

  pub on_started-IsWhole :
      (device : Option ℕ) (w : Swap) (s : Microphone)
      → w ≡ s.swap
      → Stands old n w s
      → IsWhole old n (on_started device w s)
  unfolding on_started
  on_started-IsWhole device (starting meter track ids) s e h =
      swap_all-IsWhole device meter track ids s h
  on_started-IsWhole device reinitializing s e h = absurd h
  on_started-IsWhole device idle s e h = subst (λ w. Stands old n w s) e h
  on_started-IsWhole device (replacing job) s e h = subst (λ w. Stands old n w s) e h
  on_started-IsWhole device (rolling_back job) s e h = subst (λ w. Stands old n w s) e h
  on_started-IsWhole device (ended result) s e h = subst (λ w. Stands old n w s) e h

  replace_next-IsWhole :
      (ok : Bool) (job : SwapJob) (ahead : List ℕ) (s : Microphone)
      → replacing job ≡ s.swap
      → ahead ≡ job.ahead
      → Stands old n (replacing job) s
      → IsWhole old n (replace_next ok job ahead s)
  unfolding replace_next
  replace_next-IsWhole ok job [] s e a h = subst (λ w. Stands old n w s) e h
  replace_next-IsWhole true job (sender ∷ ahead) s e a (u, m, t, h) =
      replace_each-IsWhole _ ahead _ u m t (
        All-retrack (IsOnWay old n job.new_track job.ahead job.successful job.failed_senders)
          (IsOnWay old n job.new_track ahead (job.successful ++ sender ∷ []) job.failed_senders)
          sender job.new_track s.senders
          (λ b k. ground (
            arith,
            k,
            a,
            contains-append_one b.0 sender job.successful,
            eqb_iff b.0 sender,
            eqb_iff sender b.0,
          ))
          h)
  replace_next-IsWhole false job (sender ∷ ahead) s e a (u, m, t, h) =
      replace_each-IsWhole _ ahead s u m t (
        All-map (λ b k. ground (arith, k, a, contains-append_one b.0 sender job.failed_senders))
          s.senders h)

  restore_next-IsWhole :
      (job : SwapJob) (ahead : List ℕ) (s : Microphone)
      → rolling_back job ≡ s.swap
      → ahead ≡ job.ahead
      → Stands old n (rolling_back job) s
      → IsWhole old n (restore_next true job ahead s)
  unfolding restore_next
  restore_next-IsWhole job [] s e a h = subst (λ w. Stands old n w s) e h
  restore_next-IsWhole job (sender ∷ ahead) s e a (u, t, h) = roll_back-IsWhole job ahead _ u t (
      All-retrack (IsGoingBack old job.ahead) (IsGoingBack old ahead) sender job.old_track s.senders
        (λ b k. ground (arith, k, a, t, eqb_iff b.0 sender, eqb_iff sender b.0)) h)

  pub on_replaced-IsWhole :
      (ok : Bool) (w : Swap) (s : Microphone)
      → w ≡ s.swap
      → Stands old n w s
      → IsWhole old n (on_replaced ok w s)
  unfolding on_replaced
  on_replaced-IsWhole ok (replacing job) s e h = replace_next-IsWhole ok job job.ahead s e refl h
  on_replaced-IsWhole ok reinitializing s e h = absurd h
  on_replaced-IsWhole ok (starting meter track ids) s e h = subst (λ w. Stands old n w s) e h
  on_replaced-IsWhole ok idle s e h = subst (λ w. Stands old n w s) e h
  on_replaced-IsWhole ok (rolling_back job) s e h = subst (λ w. Stands old n w s) e h
  on_replaced-IsWhole ok (ended result) s e h = subst (λ w. Stands old n w s) e h

  pub on_restored-IsWhole :
      (w : Swap) (s : Microphone)
      → w ≡ s.swap
      → Stands old n w s
      → IsWhole old n (on_restored true w s)
  unfolding on_restored
  on_restored-IsWhole (rolling_back job) s e h = restore_next-IsWhole job job.ahead s e refl h
  on_restored-IsWhole reinitializing s e h = absurd h
  on_restored-IsWhole (starting meter track ids) s e h = subst (λ w. Stands old n w s) e h
  on_restored-IsWhole idle s e h = subst (λ w. Stands old n w s) e h
  on_restored-IsWhole (replacing job) s e h = subst (λ w. Stands old n w s) e h
  on_restored-IsWhole (ended result) s e h = subst (λ w. Stands old n w s) e h
