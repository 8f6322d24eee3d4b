-- ===== src/PipelineControl/Restart.antt =====
-- Starvation, nacks and states that a machine lacks (cpp/src/pipeline-control-state-machine.cpp,
-- cpp/src/pipeline-control.cpp).
use ndnrtc.Base.{ℕ, suc, ◌+◌, ◌≡◌, ◌≢◌, ◌⊎◌, Bool, false, arith, ◌∙◌}
use ndnrtc.PipelineControl.Types.{
  idle, bootstrapping, adjusting, fetching, to_int, increase_pipeline, Kind, audio, video,
  playback_driven, RuleSet, Segment, start, starvation, segment, nack, fill_up_pipeline,
  Collaborators, Machine, unsupported_state, ok, throws,
}
use ndnrtc.PipelineControl.Bootstrapping.{seed_throws}
use ndnrtc.PipelineControl.States.{enter_state, enter_throws, exit_state, dispatch_event}
use ndnrtc.PipelineControl.Machine.{
  is_supported, transition_table, write_indicators, follow, dispatch, segment_nack,
}
use ndnrtc.PipelineControl.Transitions.{
  restarted, flat_switch, flat_transition, flat_follow, flat_dispatch, dispatch-eq-flat_dispatch,
}

module _ (C : Collaborators) where
  open C use {W, F, Interest, perform, fill_up_throws, current_command}

  -- While it plays, that is in Adjusting or Fetching.
  abbrev pub IsPlaying : Machine W F → Type 0
  IsPlaying m = (m.state ≡ adjusting) ⊎ (m.state ≡ fetching)

  flat_starvation :
      (k : Kind) (d : ℕ) (m : Machine W F)
      → IsPlaying m
      → flat_dispatch C k (starvation d) m ≡ flat_switch C k idle (starvation d) m
  unfolding flat_dispatch flat_follow flat_transition dispatch_event transition_table
  flat_starvation k d m p = ground arith

  -- The machine that fell back and was restarted.
  fallen_back : Kind → ℕ → Machine W F → Machine W F
  fallen_back k d m =
      let idled = enter_state C k idle (record (exit_state C k m.state m) { state = idle }) in
      write_indicators C (starvation d) idle (
        write_indicators C start bootstrapping (
          enter_state C k bootstrapping
            (record idled { state = bootstrapping; rebufferings = idled.rebufferings + 1 })))

  flat_switch_falls_back :
      (k : Kind) (d : ℕ) (m : Machine W F) (n : ℕ)
      → ((w : W) → seed_throws C k w ≡ false)
      → IsPlaying m
      → m.attached ≡ suc n
      → flat_switch C k idle (starvation d) m ≡ ok (fallen_back k d m)
  unfolding flat_switch exit_state enter_state enter_throws restarted write_indicators fallen_back
  flat_switch_falls_back audio d m n quiet p a = ground (arith, quiet)
  flat_switch_falls_back video d m n quiet p a = ground (arith, quiet)
  flat_switch_falls_back (playback_driven r) d m n quiet p a = grind (arith, quiet)

  fallen_back_lem :
      (k : Kind) (d : ℕ) (m : Machine W F)
      → IsPlaying m
      → let t = fallen_back k d m in
        (t.state ≡ bootstrapping)
        × (t.attached ≡ m.attached)
        × (t.rebufferings ≡ m.rebufferings + 2)
        × (t.stat_state ≡ to_int idle)
  unfolding fallen_back exit_state enter_state write_indicators
  fallen_back_lem audio d m p = ground arith
  fallen_back_lem video d m p = ground arith
  fallen_back_lem (playback_driven r) d m p = ground arith

  -- Starvation while the stream plays, with PipelineControl attached, and asking for a seed frame not
  -- throwing where the machine is driven by playback: it ends in Bootstrapping, still observed. But
  -- one starvation counts as two rebufferings, and the State indicator is left at Idle, since the
  -- interrupted transition writes it last.
  pub starvation_restarts :
      (f : ℕ) (k : Kind) (d : ℕ) (m : Machine W F) (n : ℕ)
      → ((w : W) → seed_throws C k w ≡ false)
      → IsPlaying m
      → m.attached ≡ suc n
      → (t : Machine W F) × (dispatch C (suc (suc f)) k (starvation d) m ≡ ok t)
        × (t.state ≡ bootstrapping)
        × (t.attached ≡ m.attached)
        × (t.rebufferings ≡ m.rebufferings + 2)
        × (t.stat_state ≡ to_int idle)
        × (t.stat_state ≢ to_int t.state)
  starvation_restarts f k d m n quiet p a =
      let (boots, kept, twice, stale) = fallen_back_lem k d m p in
      (
        fallen_back k d m,
        dispatch-eq-flat_dispatch C f k (starvation d) m
            ∙ flat_starvation k d m p
            ∙ flat_switch_falls_back k d m n quiet p a,
        boots,
        kept,
        twice,
        stale,
        rw (boots, stale) (omega arith),
      )

  dispatch_nack :
      (f : ℕ) (k : Kind) (m : Machine W F) (is_meta : Bool) (reason : ℕ) (i : Interest)
      → dispatch C (suc f) k (nack is_meta reason i) m ≡ ok m
  unfolding dispatch dispatch_event follow transition_table
  dispatch_nack f k m is_meta reason i = ground arith

  -- A network nack is dropped in every state: no Interest is expressed again, no collaborator is
  -- called and nothing of the machine changes, though each state has a handler for it.
  pub segment_nack_ignored :
      (k : Kind) (m : Machine W F) (is_meta : Bool) (reason : ℕ) (i : Interest)
      → segment_nack C k is_meta reason i m ≡ ok m
  unfolding segment_nack
  segment_nack_ignored k m is_meta reason i = dispatch_nack 1 k m is_meta reason i

  -- A machine for playback driven by a seed frame has no state Adjusting, and its state Fetching
  -- still asks for it: a segment that arrives when the command is to increase the pipeline, and
  -- whose filling of the pipeline does not throw, ends in an exception.
  pub playback_driven_increase_throws :
      (f : ℕ) (r : RuleSet) (m : Machine W F) (s : Segment F)
      → m.state ≡ fetching
      → fill_up_throws m.world ≡ false
      → current_command (perform fill_up_pipeline m.world) ≡ increase_pipeline
      → dispatch C (suc (suc f)) (playback_driven r) (segment s) m
        ≡ throws unsupported_state (record m { world = perform fill_up_pipeline m.world })
  unfolding flat_dispatch flat_follow dispatch_event is_supported
  playback_driven_increase_throws f r m s h quiet c =
      dispatch-eq-flat_dispatch C f (playback_driven r) (segment s) m ∙ ground arith
