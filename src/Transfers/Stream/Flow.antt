-- ===== src/Transfers/Stream/Flow.antt =====
-- Flow control: the sender is paused before too much is pending, and never left paused.
use cordia.Base.{
  Bool, Bool-cases, List, Option, [], ap, arith, eqb, eqb_iff, false, inl, inr, nat_eq, none, refl,
  some, str_eq, subst, sym, true, ◌<◌, ◌∙◌, ◌∷◌, ◌≡◌, ◌⊎◌,
}
use cordia.Transfers.Stream.{
  Control, flow_pause, flow_resume, StreamState, Writer, idle, looping, waiting, Download, resume,
  take_batch, when_empty, round_on, round_of, start_of, turn, start_writer, wake, max_pending_bytes,
  resume_pending_bytes,
}

abbrev pub is_waiting : Writer → Bool
is_waiting waiting = true
is_waiting _ = false

-- Whether the last control message told the sender to pause.
abbrev pub is_paused : List Control → Bool
is_paused [] = false
is_paused (flow_pause ∷ sent) = true
is_paused (flow_resume ∷ sent) = false

-- The writer's mark tells what the sender was told last. Unless the sender is paused, less than the limit is pending; and while the writer waits for
-- bytes, the sender is not paused.
pub record IsFlowing (d : Download) (st : StreamState) : Type 0 where
  pub open_channel : d.channel_open ≡ true
  pub told : is_paused d.sent ≡ st.flow_pause_sent
  pub calm : (st.flow_pause_sent ≡ true) ⊎ (st.pending_bytes < max_pending_bytes)
  pub awake : (is_waiting d.writer ≡ false) ⊎ (st.flow_pause_sent ≡ false)

abbrev pub Flows : Download → Option StreamState → Type 0
Flows d none = Unit
Flows d (some st) = IsFlowing d st

abbrev pub IsFluent : Download → Type 0
IsFluent d = Flows d d.stream

-- After step 1 of a round the sender is paused only if much is still pending.
resume_facts :
    (d : Download) (st : StreamState)
    → d.channel_open ≡ true
    → is_paused d.sent ≡ st.flow_pause_sent
    → (st.flow_pause_sent ≡ true) ⊎ (st.pending_bytes < max_pending_bytes)
    → ((resume true d st).0.channel_open ≡ true)
      × (is_paused (resume true d st).0.sent ≡ (resume true d st).1.flow_pause_sent)
      × (((resume true d st).1.flow_pause_sent ≡ true)
          ⊎ ((resume true d st).1.pending_bytes < max_pending_bytes))
      × (((resume true d st).1.flow_pause_sent ≡ false)
          ⊎ (resume_pending_bytes < (resume true d st).1.pending_bytes))
unfolding resume
resume_facts d st o l c = ground arith

when_empty-IsFluent :
    (d : Download) (st : StreamState)
    → d.channel_open ≡ true
    → is_paused d.sent ≡ st.flow_pause_sent
    → st.pending_bytes ≡ 0
    → (st.flow_pause_sent ≡ false) ⊎ (resume_pending_bytes < st.pending_bytes)
    → IsFluent (when_empty d st)
unfolding when_empty
when_empty-IsFluent d st o l e r = record {
  open_channel = o;
  told = l;
  calm = inr (omega arith);
  awake = inr (ground arith);
}

take_batch-IsFluent :
    (d : Download) (st : StreamState)
    → d.channel_open ≡ true
    → is_paused d.sent ≡ st.flow_pause_sent
    → (st.flow_pause_sent ≡ true) ⊎ (st.pending_bytes < max_pending_bytes)
    → IsFluent (take_batch d st)
unfolding take_batch
take_batch-IsFluent d st o l c = record {
  open_channel = o;
  told = l;
  calm = ground arith;
  awake = inl refl;
}

round_on-IsFluent :
    (d : Download) (st : StreamState)
    → d.channel_open ≡ true
    → is_paused d.sent ≡ st.flow_pause_sent
    → (st.flow_pause_sent ≡ true) ⊎ (st.pending_bytes < max_pending_bytes)
    → IsFluent (round_on true d st)
unfolding round_on
round_on-IsFluent d st o l c =
    let d' = (resume true d st).0 in
    let st' = (resume true d st).1 in
    let (o', l', c', r') = resume_facts d st o l c in
    elim (Bool-cases (eqb st'.pending_bytes 0)) [
      | inl e ↦ rw e (when_empty-IsFluent d' st' o' l' ((eqb_iff st'.pending_bytes 0).0 e) r')
      | inr e ↦ rw e (take_batch-IsFluent d' st' o' l' c')
    ]

-- The same, less what a waiting writer needs: for a writer about to run.
abbrev pub IsCalm : Download → Option StreamState → Type 0
IsCalm d none = Unit
IsCalm d (some st) =
    (d.channel_open ≡ true)
    × (is_paused d.sent ≡ st.flow_pause_sent)
    × ((st.flow_pause_sent ≡ true) ⊎ (st.pending_bytes < max_pending_bytes))

round_of_cases :
    (d : Download) (st : StreamState)
    → (round_of true d (some st) ≡ round_on true d st)
      ⊎ (round_of true d (some st)
          ≡ record d { writer = idle; stream = some (record st { writer_running = false }) })
unfolding round_of
round_of_cases d st = ground arith

round_of-IsFluent :
    (d : Download) (o : Option StreamState)
    → o ≡ d.stream
    → IsCalm d o
    → IsFluent (round_of true d o)
round_of-IsFluent d none e k = unfold round_of in subst (Flows (record d { writer = idle })) e tt
round_of-IsFluent d (some st) e k = elim (round_of_cases d st) [
  | inl on ↦ subst IsFluent (sym on) (round_on-IsFluent d st k.0 k.1 k.2)
  | inr off ↦
      subst IsFluent (sym off)
        (record { open_channel = k.0; told = k.1; calm = k.2; awake = inl refl })
]

pub turn-IsFluent : (d : Download) → IsCalm d d.stream → IsFluent (turn true d)
unfolding turn
turn-IsFluent d h = round_of-IsFluent d d.stream refl h

pub IsCalm-of_IsFluent : (d : Download) (o : Option StreamState) → Flows d o → IsCalm d o
IsCalm-of_IsFluent d none h = tt
IsCalm-of_IsFluent d (some st) h = (h.open_channel, h.told, h.calm)

start_of_cases :
    (d : Download) (st : StreamState)
    → (start_of true d (some st) ≡ d)
      ⊎ (start_of true d (some st)
          ≡ turn true
              (record d { stream = some (record st { writer_running = true }); writer = looping }))
unfolding start_of
start_of_cases d st = ground arith

start_of-IsFluent :
    (d : Download) (o : Option StreamState)
    → o ≡ d.stream
    → Flows d o
    → IsFluent (start_of true d o)
start_of-IsFluent d none e h = unfold start_of in subst (Flows d) e h
start_of-IsFluent d (some st) e h = elim (start_of_cases d st) [
  | inl busy ↦ subst IsFluent (sym busy) (subst (Flows d) e h)
  | inr starts ↦ subst IsFluent (sym starts) (turn-IsFluent _ (h.open_channel, h.told, h.calm))
]

pub start_writer-IsFluent : (d : Download) → IsFluent d → IsFluent (start_writer true d)
unfolding start_writer
start_writer-IsFluent d h = start_of-IsFluent d d.stream refl h

wake_facts :
    (d : Download)
    → ((wake d).stream ≡ d.stream)
      × ((wake d).channel_open ≡ d.channel_open)
      × ((wake d).sent ≡ d.sent)
      × (is_waiting (wake d).writer ≡ false)
unfolding wake
wake_facts d = ground arith

-- A wake makes a calm download fluent.
pub wake-IsFluent : (d : Download) → IsCalm d d.stream → IsFluent (wake d)
wake-IsFluent d h =
    let (same, channel, control, up) = wake_facts d in
    subst (Flows (wake d)) (sym same) (go d.stream channel control up h)
  where
    go :
        (o : Option StreamState)
        → (wake d).channel_open ≡ d.channel_open
        → (wake d).sent ≡ d.sent
        → is_waiting (wake d).writer ≡ false
        → IsCalm d o
        → Flows (wake d) o
    go none channel control up k = tt
    go (some st) channel control up k = record {
      open_channel = channel ∙ k.0;
      told = ap is_paused control ∙ k.1;
      calm = k.2;
      awake = inl up;
    }
