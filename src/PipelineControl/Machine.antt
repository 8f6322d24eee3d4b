-- ===== src/PipelineControl/Machine.antt =====
-- `PipelineControlStateMachine::dispatch` and PipelineControl, which observes the machine and calls
-- it again (cpp/src/pipeline-control-state-machine.cpp, cpp/src/pipeline-control.cpp).
use ndnrtc.Base.{
  ℕ, zero, suc, ◌+◌, ◌-◌, Bool, true, false, not, ◌&&◌, Option, none, some, [], ◌∷◌, if◌then◌else◌,
}
use ndnrtc.PipelineControl.Types.{
  StateName, idle, bootstrapping, adjusting, fetching, to_int, unknown_sample, meta, PipelineAdjust,
  increase_pipeline, decrease_pipeline, keep_pipeline, Kind, playback_driven, Segment, Event, start,
  reset, starvation, segment, timeout, nack, interest_control_burst, interest_control_withhold,
  Collaborators, Machine, unsupported_state, already_started, collaborator_threw, Outcome, ok,
  throws, out_of_fuel, ◌>>=◌,
}
use ndnrtc.PipelineControl.Bootstrapping.{call}
use ndnrtc.PipelineControl.States.{
  enter_idle, enter_state, enter_throws, exit_state, dispatch_event,
}

abbrev pub is_idle : StateName → Bool
is_idle idle = true
is_idle _ = false

abbrev pub same_state : StateName → StateName → Bool
same_state idle idle = true
same_state bootstrapping bootstrapping = true
same_state adjusting adjusting = true
same_state fetching fetching = true
same_state _ _ = false

-- `states_.find(nextState) != states_.end()`
unfoldable pub is_supported : Kind → StateName → Bool
is_supported (playback_driven r) adjusting = false
is_supported k s = true

module _ (C : Collaborators) where
  open C use {W, F, Interest}

  abbrev pub is_reset : Event F Interest → Bool
  is_reset reset = true
  is_reset _ = false

  -- `event->toString() == "Starvation"`
  abbrev pub is_starvation : Event F Interest → Bool
  is_starvation (starvation d) = true
  is_starvation _ = false

  -- `stateMachineTable_`
  unfoldable pub transition_table : StateName → Event F Interest → Option StateName
  transition_table idle start = some bootstrapping
  transition_table bootstrapping reset = some idle
  transition_table adjusting reset = some idle
  transition_table adjusting (starvation d) = some idle
  transition_table fetching reset = some idle
  transition_table fetching (starvation d) = some idle
  transition_table _ _ = none

  -- The machine as its constructor leaves it: the members of the states have no value yet.
  unfoldable pub create : W → (seqs limit rebufferings stat_state : ℕ) → Machine W F
  unfolding enter_idle
  create w seqs limit rebufferings stat_state = enter_idle C (record {
    state = idle;
    world = w;
    metadata = none;
    bootstrap_delta = seqs;
    bootstrap_key = seqs;
    start_off_delta = seqs;
    start_off_key = seqs;
    pipeline_lower_limit = limit;
    attached = 0;
    rebufferings = rebufferings;
    stat_state = stat_state;
  })

  -- The two indicators that `switchToState` writes last, for the state that it entered itself.
  unfoldable pub write_indicators : Event F Interest → StateName → Machine W F → Machine W F
  write_indicators ev next m = record m {
    rebufferings = if is_starvation ev then m.rebufferings + 1 else m.rebufferings;
    stat_state = to_int next;
  }

  module _ (redispatch : Event F Interest → Machine W F → Outcome (Machine W F)) where
    -- PipelineControl::stop; `detach` erases one entry, if there is one.
    unfoldable pub stop_by : Machine W F → Outcome (Machine W F)
    stop_by m = redispatch reset (record m { attached = m.attached - 1 })

    -- PipelineControl::start
    unfoldable pub start_by : Machine W F → Outcome (Machine W F)
    start_by m =
        if is_idle m.state
        then redispatch start (record m { attached = m.attached + 1 })
        else throws already_started m

    -- PipelineControl::onStateMachineChangedState, given the name of the current state.
    unfoldable pub on_changed_state : Event F Interest → Machine W F → Outcome (Machine W F)
    unfolding stop_by start_by
    on_changed_state ev m =
        if is_idle m.state && not (is_reset ev)
        then (stop_by (record m { rebufferings = m.rebufferings + 1 }) >>= start_by)
        else ok m

    -- The loop over `observers_`, which has the length that it had when the loop began.
    unfoldable pub notify_changed : ℕ → Event F Interest → Machine W F → Outcome (Machine W F)
    unfolding on_changed_state
    notify_changed zero ev m = ok m
    notify_changed (suc n) ev m = on_changed_state ev m >>= notify_changed n ev

    unfoldable pub switch_to_state :
        Kind → StateName → Event F Interest → Machine W F → Outcome (Machine W F)
    unfolding enter_state enter_throws exit_state notify_changed write_indicators
    switch_to_state k next ev m =
        let left = record (exit_state C k m.state m) { state = next } in
        let entered = enter_state C k next left in
        let told =
          notify_changed entered.attached ev entered >>= λ m'. ok (write_indicators ev next m') in
        if enter_throws C k next left.world then throws collaborator_threw entered else told

    -- `onStateMachineReceivedEvent` of PipelineControl does nothing.
    unfoldable pub transition : Kind → Event F Interest → Machine W F → Outcome (Machine W F)
    unfolding switch_to_state transition_table
    transition k ev m = elim (transition_table m.state ev) [
      | none ↦ ok m
      | some next ↦ switch_to_state k next ev m
    ]

    -- What `dispatch` does with the state's answer.
    unfoldable pub follow :
        Kind → Event F Interest → Machine W F → Option StateName → Outcome (Machine W F)
    unfolding switch_to_state transition is_supported
    follow k ev m none = throws collaborator_threw m
    follow k ev m (some next) =
        if not (same_state next m.state)
        then (if is_supported k next
            then switch_to_state k next ev m
            else throws unsupported_state m)
        else transition k ev m

    unfoldable pub dispatch_by : Kind → Event F Interest → Machine W F → Outcome (Machine W F)
    unfolding dispatch_event follow
    dispatch_by k ev m = let (m', next) = dispatch_event C k m ev in follow k ev m' next

  -- `dispatch`; the fuel bounds how deep the calls from inside a transition go.
  unfoldable pub dispatch : ℕ → Kind → Event F Interest → Machine W F → Outcome (Machine W F)
  unfolding dispatch_by
  dispatch zero k ev m = out_of_fuel
  dispatch (suc n) k ev m = dispatch_by (dispatch n k) k ev m

  -- The depth that is always enough.
  abbrev pub enough : ℕ
  enough = 2

  unfoldable pub pipeline_control_start : Kind → Machine W F → Outcome (Machine W F)
  unfolding start_by
  pipeline_control_start k m = start_by (dispatch enough k) m

  unfoldable pub pipeline_control_stop : Kind → Machine W F → Outcome (Machine W F)
  unfolding stop_by
  pipeline_control_stop k m = stop_by (dispatch enough k) m

  unfoldable pub segment_arrived : Kind → Segment F → Machine W F → Outcome (Machine W F)
  segment_arrived k s m = elim s.sample_class [
    | unknown_sample ↦ elim s.segment_class [ meta ↦ dispatch enough k (segment s) m | _ ↦ ok m ]
    | _ ↦ dispatch enough k (segment s) m
  ]

  unfoldable pub segment_request_timeout :
      Kind → Bool → Interest → Machine W F → Outcome (Machine W F)
  segment_request_timeout k is_meta i m = dispatch enough k (timeout is_meta i) m

  unfoldable pub segment_nack : Kind → Bool → ℕ → Interest → Machine W F → Outcome (Machine W F)
  segment_nack k is_meta reason i m = dispatch enough k (nack is_meta reason i) m

  unfoldable pub segment_starvation : Kind → Machine W F → Outcome (Machine W F)
  segment_starvation k m = dispatch enough k (starvation 500) m >>= λ m'. dispatch enough k start m'

  unfoldable pub need_pipeline_adjustment : PipelineAdjust → Machine W F → Machine W F × Bool
  need_pipeline_adjustment increase_pipeline m = (call C m (interest_control_burst ∷ []), true)
  need_pipeline_adjustment decrease_pipeline m = (call C m (interest_control_withhold ∷ []), true)
  need_pipeline_adjustment keep_pipeline m = (m, false)
