-- ===== src/PipelineControl/Transitions.antt =====
-- `dispatch` without the calls from inside a transition, and the diagram of the states
-- (cpp/src/pipeline-control-state-machine.cpp, cpp/src/pipeline-control.cpp).
use ndnrtc.Base.{
  ℕ, zero, suc, ◌+◌, ◌-◌, ◌≡◌, refl, inl, inr, Bool, true, false, not, ◌&&◌, Option, none, some,
  arith, if◌then◌else◌, Bool-cases, ap, ◌∙◌,
}
use ndnrtc.PipelineControl.Types.{
  StateName, idle, bootstrapping, adjusting, fetching, Kind, audio, video, playback_driven, Event,
  start, reset, Collaborators, Machine, unsupported_state, collaborator_threw, Outcome, ok, throws,
  ◌>>=◌,
}
use ndnrtc.PipelineControl.Bootstrapping.{seed_throws}
use ndnrtc.PipelineControl.States.{enter_state, enter_throws, exit_state, dispatch_event}
use ndnrtc.PipelineControl.Machine.{
  is_idle, same_state, is_supported, is_reset, transition_table, stop_by, start_by,
  on_changed_state, notify_changed, write_indicators, switch_to_state, transition, follow, dispatch,
}

abbrev pub is_observed : ℕ → Bool
is_observed zero = false
is_observed (suc n) = true

module _ (C : Collaborators) where
  open C use {W, F, Interest}

  -- What PipelineControl makes of a machine that fell back to Idle.
  unfoldable pub restarted : Kind → Machine W F → Outcome (Machine W F)
  restarted k m =
      let again = record m { state = bootstrapping; rebufferings = m.rebufferings + 1 } in
      let entered = enter_state C k bootstrapping again in
      if seed_throws C k again.world
      then throws collaborator_threw entered
      else ok (write_indicators C start bootstrapping entered)

  unfoldable pub flat_switch :
      Kind → StateName → Event F Interest → Machine W F → Outcome (Machine W F)
  flat_switch k next ev m =
      let left = record (exit_state C k m.state m) { state = next } in
      let entered = enter_state C k next left in
      let told =
        if is_idle next && not (is_reset C ev) && is_observed entered.attached
        then restarted k entered
        else ok entered in
      if enter_throws C k next left.world
      then throws collaborator_threw entered
      else told >>= λ m'. ok (write_indicators C ev next m')

  unfoldable pub flat_transition : Kind → Event F Interest → Machine W F → Outcome (Machine W F)
  flat_transition k ev m = elim (transition_table C m.state ev) [
    | none ↦ ok m
    | some next ↦ flat_switch k next ev m
  ]

  unfoldable pub flat_follow :
      Kind → Event F Interest → Machine W F → Option StateName → Outcome (Machine W F)
  flat_follow k ev m none = throws collaborator_threw m
  flat_follow k ev m (some next) =
      if not (same_state next m.state)
      then (if is_supported k next then flat_switch k next ev m else throws unsupported_state m)
      else flat_transition k ev m

  -- `dispatch` as one step: what the state does, the switch that it asks for or that the table has,
  -- and the restart.
  unfoldable pub flat_dispatch : Kind → Event F Interest → Machine W F → Outcome (Machine W F)
  flat_dispatch k ev m = let (m', next) = dispatch_event C k m ev in flat_follow k ev m' next

  notify_awake :
      (again : Event F Interest → Machine W F → Outcome (Machine W F)) (n : ℕ)
      (ev : Event F Interest) (m : Machine W F)
      → is_idle m.state && not (is_reset C ev) ≡ false
      → notify_changed C again n ev m ≡ ok m
  unfolding notify_changed on_changed_state
  notify_awake again zero ev m h = refl
  notify_awake again (suc n) ev m h = rw h (notify_awake again n ev m h)

  abbrev at : StateName → Machine W F → Machine W F
  at s m = record m { state = s }

  at_state : (s : StateName) (m : Machine W F) → m.state ≡ s → m ≡ at s m
  at_state s m h = λ i. record m { state = h i }

  enter_state-state :
      (k : Kind) (s : StateName) (m : Machine W F)
      → ((enter_state C k s m).state ≡ m.state) × ((enter_state C k s m).attached ≡ m.attached)
  unfolding enter_state
  enter_state-state k idle m = (refl, refl)
  enter_state-state audio bootstrapping m = (refl, refl)
  enter_state-state video bootstrapping m = (refl, refl)
  enter_state-state (playback_driven r) bootstrapping m = (refl, refl)
  enter_state-state k adjusting m = (refl, refl)
  enter_state-state k fetching m = (refl, refl)

  idle_stays :
      (f : ℕ) (k : Kind) (m : Machine W F) → dispatch C (suc f) k reset (at idle m) ≡ ok (at idle m)
  unfolding dispatch
  idle_stays f k m = refl

  started : Kind → Machine W F → Outcome (Machine W F)
  started k m =
      let entered = enter_state C k bootstrapping (at bootstrapping m) in
      if seed_throws C k m.world
      then throws collaborator_threw entered
      else ok (write_indicators C start bootstrapping entered)

  -- A switch in which nothing is called back.
  quiet_switch : Kind → StateName → Event F Interest → Machine W F → Outcome (Machine W F)
  quiet_switch k next ev m =
      let left = at next (exit_state C k m.state m) in
      let entered = enter_state C k next left in
      if enter_throws C k next left.world
      then throws collaborator_threw entered
      else ok (write_indicators C ev next entered)

  -- A switch to a state other than Idle calls nothing back.
  switch_awake :
      (again : Event F Interest → Machine W F → Outcome (Machine W F)) (k : Kind) (next : StateName)
      (ev : Event F Interest) (m : Machine W F)
      → is_idle next && not (is_reset C ev) ≡ false
      → switch_to_state C again k next ev m ≡ quiet_switch k next ev m
  unfolding switch_to_state quiet_switch
  switch_awake again k next ev m h =
      ap
        (λ o.
          if enter_throws C k next (exit_state C k m.state m).world
          then throws collaborator_threw (enter_state C k next (at next (exit_state C k m.state m)))
          else o >>= λ m'. ok (write_indicators C ev next m'))
        (notify_awake again _ ev _
          (rw ((enter_state-state k next (at next (exit_state C k m.state m))).0) h))

  idle_starts :
      (f : ℕ) (k : Kind) (m : Machine W F) → dispatch C (suc f) k start (at idle m) ≡ started k m
  unfolding dispatch started quiet_switch enter_throws
  idle_starts f k m = switch_awake (dispatch C f k) k bootstrapping start (at idle m) refl

  stop_start_idle :
      (f : ℕ) (k : Kind) (m : Machine W F)
      → (stop_by C (dispatch C (suc f) k) (at idle m) >>= start_by C (dispatch C (suc f) k))
        ≡ started k (record m { attached = m.attached - 1 + 1 })
  unfolding stop_by start_by started
  stop_start_idle f k m =
      ap (λ o. o >>= start_by C (dispatch C (suc f) k))
        (idle_stays f k (record m { attached = m.attached - 1 }))
      ∙ idle_starts f k (record m { attached = m.attached - 1 + 1 })

  on_changed_idle :
      (f n : ℕ) (k : Kind) (ev : Event F Interest) (m : Machine W F)
      → is_reset C ev ≡ false
      → on_changed_state C (dispatch C (suc f) k) ev (record m { state = idle; attached = suc n })
        ≡ restarted k (record m { state = idle; attached = suc n })
  unfolding on_changed_state restarted started
  on_changed_idle f n k ev m live = rw live (
      stop_start_idle f k (record m { attached = suc n; rebufferings = m.rebufferings + 1 })
      ∙ ap (λ (a : ℕ). started k (record m { attached = a; rebufferings = m.rebufferings + 1 }))
          (omega arith))

  -- A restart is not followed by another: the machine has left Idle, or an exception is on its way.
  restarted_once :
      (again : Event F Interest → Machine W F → Outcome (Machine W F)) (n : ℕ) (k : Kind)
      (ev : Event F Interest) (m : Machine W F)
      → (restarted k m >>= notify_changed C again n ev) ≡ restarted k m
  unfolding restarted write_indicators
  restarted_once again n k ev m = elim (Bool-cases (seed_throws C k m.world)) [
    | inl t ↦ rw t refl
    | inr t ↦ rw t (
        notify_awake again n ev _ (
          rw
            ((enter_state-state k bootstrapping
              (record m { state = bootstrapping; rebufferings = m.rebufferings + 1 })).0)
            refl))
  ]

  -- The loop over the observers restarts a machine that fell back to Idle once.
  notify_idle :
      (f a : ℕ) (k : Kind) (ev : Event F Interest) (m : Machine W F)
      → is_reset C ev ≡ false
      → notify_changed C (dispatch C (suc f) k) a ev (record m { state = idle; attached = a }) ≡ (
          if is_observed a
          then restarted k (record m { state = idle; attached = a })
          else ok (record m { state = idle; attached = a }))
  unfolding notify_changed
  notify_idle f zero k ev m live = refl
  notify_idle f (suc n) k ev m live =
      ap (λ o. o >>= notify_changed C (dispatch C (suc f) k) n ev) (on_changed_idle f n k ev m live)
      ∙ restarted_once (dispatch C (suc f) k) n k ev (record m { state = idle; attached = suc n })

  switch_flat :
      (f : ℕ) (k : Kind) (next : StateName) (ev : Event F Interest) (m : Machine W F)
      → switch_to_state C (dispatch C (suc f) k) k next ev m ≡ flat_switch k next ev m
  unfolding flat_switch switch_to_state enter_state enter_throws quiet_switch
  switch_flat f k idle ev m = elim (Bool-cases (is_reset C ev)) [
    | inl r ↦ rw r (switch_awake (dispatch C (suc f) k) k idle ev m (rw r refl))
    | inr live ↦ rw live (
        ap (λ o. o >>= λ m'. ok (write_indicators C ev idle m'))
          (notify_idle f _ k ev (enter_state C k idle (at idle (exit_state C k m.state m))) live))
  ]
  switch_flat f k bootstrapping ev m = switch_awake (dispatch C (suc f) k) k bootstrapping ev m refl
  switch_flat f k adjusting ev m = switch_awake (dispatch C (suc f) k) k adjusting ev m refl
  switch_flat f k fetching ev m = switch_awake (dispatch C (suc f) k) k fetching ev m refl

  transition_flat :
      (f : ℕ) (k : Kind) (ev : Event F Interest) (m : Machine W F)
      → transition C (dispatch C (suc f) k) k ev m ≡ flat_transition k ev m
  unfolding transition flat_transition
  transition_flat f k ev m = on_table (transition_table C m.state ev)
    where
      on_table :
          (t : Option StateName)
          → (elim t [
            | none ↦ ok m
            | some next ↦ switch_to_state C (dispatch C (suc f) k) k next ev m
          ])
            ≡ elim t [ none ↦ ok m | some next ↦ flat_switch k next ev m ]
      on_table none = refl
      on_table (some next) = switch_flat f k next ev m

  follow_flat :
      (f : ℕ) (k : Kind) (ev : Event F Interest) (m : Machine W F) (next : Option StateName)
      → follow C (dispatch C (suc f) k) k ev m next ≡ flat_follow k ev m next
  unfolding follow flat_follow
  follow_flat f k ev m none = refl
  follow_flat f k ev m (some next) = rw (switch_flat f k next ev m, transition_flat f k ev m) refl

  -- Two levels of calls are always enough: with them or more, however many times PipelineControl is
  -- attached, `dispatch` does what one step does whose fall back to Idle is restarted at once,
  -- errors included.
  pub dispatch-eq-flat_dispatch :
      (f : ℕ) (k : Kind) (ev : Event F Interest) (m : Machine W F)
      → dispatch C (suc (suc f)) k ev m ≡ flat_dispatch k ev m
  unfolding dispatch flat_dispatch
  dispatch-eq-flat_dispatch f k ev m =
      let (m', next) = dispatch_event C k m ev in follow_flat f k ev m' next
