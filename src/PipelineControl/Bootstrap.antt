-- ===== src/PipelineControl/Bootstrap.antt =====
-- The diagram of the states, what bootstrapping asks for, and when playout is allowed
-- (cpp/src/pipeline-control-state-machine.cpp).
use ndnrtc.Base.{ℕ, suc, ◌≡◌, sym, true, false, arith, ◌∙◌, ◌↔◌}
use ndnrtc.PipelineControl.Types.{
  StateName, idle, bootstrapping, adjusting, fetching, Kind, audio, video, playback_driven, RuleSet,
  Segment, Event, start, reset, starvation, segment, timeout, nack, Collaborators, Machine, ok,
}
use ndnrtc.PipelineControl.Bootstrapping.{
  bootstrapping_frame, is_expected_video, received_start_off_video,
}
use ndnrtc.PipelineControl.States.{enter_state, enter_throws, exit_state, dispatch_event}
use ndnrtc.PipelineControl.Machine.{is_supported, transition_table, write_indicators, dispatch}
use ndnrtc.PipelineControl.Transitions.{
  restarted, flat_switch, flat_transition, flat_follow, flat_dispatch, dispatch-eq-flat_dispatch,
}

-- The arrows of the machine, those of a restart included.
pub data Edge : Kind → StateName → StateName → Type 0 where
  stay : {k : Kind} {s : StateName} → Edge k s s
  begin : {k : Kind} → Edge k idle bootstrapping
  stop : {k : Kind} {s : StateName} → Edge k s idle
  restart_adjusting : {k : Kind} → Edge k adjusting bootstrapping
  restart_fetching : {k : Kind} → Edge k fetching bootstrapping
  audio_bootstrapped : Edge audio bootstrapping adjusting
  video_bootstrapped : Edge video bootstrapping adjusting
  seeded : {r : RuleSet} → Edge (playback_driven r) bootstrapping fetching
  minimized : {k : Kind} → Edge k adjusting fetching
  audio_out_of_sync : Edge audio fetching adjusting
  video_out_of_sync : Edge video fetching adjusting

ruleset edges = (
  stay, begin, stop, restart_adjusting, restart_fetching, audio_bootstrapped, video_bootstrapped,
  seeded, minimized, audio_out_of_sync, video_out_of_sync,
)

module _ (C : Collaborators) where
  open C use {W, F, Interest, perform, current_command, initial_demand}

  audio-Edge :
      (ev : Event F Interest) (m t : Machine W F)
      → flat_dispatch C audio ev m ≡ ok t
      → Edge audio m.state t.state
  unfolding flat_dispatch flat_follow flat_transition flat_switch dispatch_event transition_table
      exit_state enter_state enter_throws restarted write_indicators is_supported
  audio-Edge start m t e = grind (arith, edges)
  audio-Edge reset m t e = grind (arith, edges)
  audio-Edge (starvation d) m t e = grind (arith, edges)
  audio-Edge (segment s) m t e = grind (arith, edges)
  audio-Edge (timeout b i) m t e = grind (arith, edges)
  audio-Edge (nack b r i) m t e = grind (arith, edges)

  video-Edge :
      (ev : Event F Interest) (m t : Machine W F)
      → flat_dispatch C video ev m ≡ ok t
      → Edge video m.state t.state
  unfolding flat_dispatch flat_follow flat_transition flat_switch dispatch_event transition_table
      exit_state enter_state enter_throws restarted write_indicators is_supported
  video-Edge start m t e = grind (arith, edges)
  video-Edge reset m t e = grind (arith, edges)
  video-Edge (starvation d) m t e = grind (arith, edges)
  video-Edge (segment s) m t e = grind (arith, edges)
  video-Edge (timeout b i) m t e = grind (arith, edges)
  video-Edge (nack b r i) m t e = grind (arith, edges)

  playback_driven-Edge :
      (rules : RuleSet) (ev : Event F Interest) (m t : Machine W F)
      → flat_dispatch C (playback_driven rules) ev m ≡ ok t
      → Edge (playback_driven rules) m.state t.state
  unfolding flat_dispatch flat_follow flat_transition flat_switch dispatch_event transition_table
      exit_state enter_state enter_throws restarted write_indicators is_supported
  playback_driven-Edge rules start m t e = grind (arith, edges)
  playback_driven-Edge rules reset m t e = grind (arith, edges)
  playback_driven-Edge rules (starvation d) m t e = grind (arith, edges)
  playback_driven-Edge rules (segment s) m t e = grind (arith, edges)
  playback_driven-Edge rules (timeout b i) m t e = grind (arith, edges)
  playback_driven-Edge rules (nack b r i) m t e = grind (arith, edges)

  flat_dispatch-Edge :
      (k : Kind) (ev : Event F Interest) (m t : Machine W F)
      → flat_dispatch C k ev m ≡ ok t
      → Edge k m.state t.state
  flat_dispatch-Edge audio = audio-Edge
  flat_dispatch-Edge video = video-Edge
  flat_dispatch-Edge (playback_driven rules) = playback_driven-Edge rules

  -- Whatever the event, the state after `dispatch` is the state before or the end of an arrow of the
  -- diagram that starts there.
  pub dispatch-Edge :
      (f : ℕ) (k : Kind) (ev : Event F Interest) (m t : Machine W F)
      → dispatch C (suc (suc f)) k ev m ≡ ok t
      → Edge k m.state t.state
  dispatch-Edge f k ev m t e =
      flat_dispatch-Edge k ev m t (sym (dispatch-eq-flat_dispatch C f k ev m) ∙ e)

  flat_bootstrapped :
      (m : Machine W F) (s : Segment F) (t : Machine W F)
      → m.state ≡ bootstrapping
      → flat_dispatch C video (segment s) m ≡ ok t
      → (t.state ≡ adjusting) ↔ (
          (s.is_meta ≡ false)
          × (is_expected_video C m s ≡ true)
          × (received_start_off_video C m s ≡ true))
  unfolding flat_dispatch flat_follow flat_transition flat_switch dispatch_event transition_table
      exit_state enter_state enter_throws restarted write_indicators is_supported
      bootstrapping_frame
  flat_bootstrapped m s t b e = (grind arith, grind arith)

  -- A video machine that bootstraps leaves for Adjusting exactly at a frame segment that it expects
  -- and that reaches both start-off numbers.
  pub dispatch_bootstrapped :
      (f : ℕ) (m : Machine W F) (s : Segment F) (t : Machine W F)
      → m.state ≡ bootstrapping
      → dispatch C (suc (suc f)) video (segment s) m ≡ ok t
      → (t.state ≡ adjusting) ↔ (
          (s.is_meta ≡ false)
          × (is_expected_video C m s ≡ true)
          × (received_start_off_video C m s ≡ true))
  dispatch_bootstrapped f m s t b e =
      flat_bootstrapped m s t b (sym (dispatch-eq-flat_dispatch C f video (segment s) m) ∙ e)
