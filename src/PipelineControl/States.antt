-- ===== src/PipelineControl/States.antt =====
-- The states: what each does on entry, on exit and on an event
-- (cpp/src/pipeline-control-state-machine.cpp).
use ndnrtc.Base.{Bool, false, none, some, [], ◌∷◌, if◌then◌else◌}
use ndnrtc.PipelineControl.Types.{
  StateName, idle, bootstrapping, adjusting, fetching, increase_pipeline, decrease_pipeline,
  keep_pipeline, Kind, audio, video, playback_driven, Segment, Event, start, reset, starvation,
  segment, timeout, nack, buffer_reset, pipeliner_reset, latency_control_reset,
  interest_control_reset, allow_playout, mark_lower_limit, express_interest, Collaborators, Machine,
}
use ndnrtc.PipelineControl.Bootstrapping.{
  call, Handled, fill_up_then, ask_metadata, ask_seed_frame, seed_throws, bootstrapping_segment,
}

module _ (C : Collaborators) where
  open C use {
    W, F, Interest, perform, fill_up_throws, express_throws, current_command, pipeline_limit,
    initial_demand, ffwd, seed_rate,
  }

  unfoldable pub enter_idle : Machine W F → Machine W F
  enter_idle m = call C m (
      buffer_reset
      ∷ pipeliner_reset
      ∷ latency_control_reset
      ∷ interest_control_reset
      ∷ allow_playout false 0
      ∷ [])

  -- Whether entering a state throws.
  unfoldable pub enter_throws : Kind → StateName → W → Bool
  unfolding seed_throws
  enter_throws k idle w = false
  enter_throws k bootstrapping w = seed_throws C k w
  enter_throws k adjusting w = false
  enter_throws k fetching w = false

  enter_bootstrapping : Kind → Machine W F → Machine W F
  unfolding ask_metadata ask_seed_frame
  enter_bootstrapping audio m = ask_metadata C m
  enter_bootstrapping video m = ask_metadata C m
  enter_bootstrapping (playback_driven r) m = ask_seed_frame C r m

  unfoldable pub enter_state : Kind → StateName → Machine W F → Machine W F
  unfolding enter_idle enter_bootstrapping
  enter_state k idle m = enter_idle m
  enter_state k bootstrapping m = enter_bootstrapping k m
  enter_state k adjusting m = record m { pipeline_lower_limit = pipeline_limit m.world }
  enter_state k fetching m = m

  -- Only the two metadata-driven bootstrapping states do something on exit.
  exit_bootstrapping : Kind → Machine W F → Machine W F
  exit_bootstrapping audio m = record m { metadata = none }
  exit_bootstrapping video m = record m { metadata = none }
  exit_bootstrapping (playback_driven r) m = m

  unfoldable pub exit_state : Kind → StateName → Machine W F → Machine W F
  unfolding exit_bootstrapping
  exit_state k bootstrapping m = exit_bootstrapping k m
  exit_state k idle m = m
  exit_state k adjusting m = m
  exit_state k fetching m = m

  unfoldable pub adjusting_segment : Machine W F → Handled C
  adjusting_segment m = fill_up_then C m (λ m'. elim (current_command m'.world) [
    | increase_pipeline ↦ (call C m' (mark_lower_limit m'.pipeline_lower_limit ∷ []), fetching)
    | decrease_pipeline ↦ (record m' { pipeline_lower_limit = pipeline_limit m'.world }, adjusting)
    | keep_pipeline ↦ (m', adjusting)
  ])

  unfoldable pub fetching_segment : Machine W F → Handled C
  fetching_segment m = fill_up_then C m (λ m'. elim (current_command m'.world) [
    | increase_pipeline ↦ (m', adjusting)
    | _ ↦ (m', fetching)
  ])

  on_segment : Kind → StateName → Machine W F → Segment F → Handled C
  unfolding bootstrapping_segment adjusting_segment fetching_segment
  on_segment k idle m s = (m, some idle)
  on_segment k bootstrapping m s = bootstrapping_segment C k m s
  on_segment k adjusting m s = adjusting_segment m
  on_segment k fetching m s = fetching_segment m

  bootstrapping_timeout : Kind → Machine W F → Bool → Machine W F
  unfolding ask_metadata ask_seed_frame
  bootstrapping_timeout (playback_driven r) m is_meta = ask_seed_frame C r m
  bootstrapping_timeout audio m is_meta = if is_meta then ask_metadata C m else m
  bootstrapping_timeout video m is_meta = if is_meta then ask_metadata C m else m

  on_timeout : Kind → StateName → Machine W F → Bool → Interest → Machine W F
  unfolding bootstrapping_timeout
  on_timeout k idle m is_meta i = m
  on_timeout k bootstrapping m is_meta i = bootstrapping_timeout k m is_meta
  on_timeout k adjusting m is_meta i = call C m (express_interest i ∷ [])
  on_timeout k fetching m is_meta i = call C m (express_interest i ∷ [])

  -- Only the timeout of a seed frame can throw.
  unfoldable pub timeout_throws : Kind → StateName → W → Bool
  unfolding enter_throws
  timeout_throws k s w = enter_throws k s w

  -- `onNack` of the states, which `dispatchEvent` never calls.
  unfoldable pub on_nack : Kind → StateName → Machine W F → Bool → Interest → Machine W F
  unfolding on_timeout
  on_nack k s m is_meta i = on_timeout k s m is_meta i

  -- `PipelineControlState::dispatchEvent`: the new machine, and the name of the next state unless a
  -- handler threw. The last clause is its `default`, which a nack reaches.
  unfoldable pub dispatch_event : Kind → Machine W F → Event F Interest → Handled C
  unfolding on_segment on_timeout timeout_throws
  dispatch_event k m start = (m, some m.state)
  dispatch_event k m reset = (m, some m.state)
  dispatch_event k m (starvation d) = (m, some m.state)
  dispatch_event k m (timeout is_meta i) = (
    on_timeout k m.state m is_meta i,
    if timeout_throws k m.state m.world then none else some m.state,
  )
  dispatch_event k m (segment s) = on_segment k m.state m s
  dispatch_event k m (nack is_meta reason i) = (m, some m.state)
