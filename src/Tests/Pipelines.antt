-- ===== src/Tests/Pipelines.antt =====
-- Concrete state machines of cpp/src/pipeline-control-state-machine.cpp.
use ndnrtc.Base.{ℕ, ◌+◌, ◌≡◌, refl, ◌≢◌, inr, Bool, true, false, none, some, List, [], ◌∷◌}
use ndnrtc.PipelineControl.Types.{
  idle, bootstrapping, fetching, to_int, delta, data_segment, PipelineAdjust, increase_pipeline,
  keep_pipeline, video, playback_driven, Metadata, Segment, start, starvation, segment, Call,
  fill_up_pipeline, Collaborators, Machine, unsupported_state, ok, throws,
}
use ndnrtc.PipelineControl.Bootstrapping.{seed_throws}
use ndnrtc.PipelineControl.Machine.{dispatch, segment_starvation, create}
use ndnrtc.PipelineControl.Transitions.{dispatch-eq-flat_dispatch, flat_dispatch}
use ndnrtc.PipelineControl.Restart.{starvation_restarts, playback_driven_increase_throws}
use ndnrtc.PipelineControl.Bootstrap.{Edge, dispatch-Edge}
use ndnrtc.PipelineControl.Playout.{
  after_call, is_playing, here, dispatched, observed, Reach-create-IsSynced,
}

-- A world that knows whether playout is allowed and what the latency control commands.
record World : Type 0 where
  playout : Bool
  command : PipelineAdjust
  calls : List (Call ℕ ℕ)

abbrev logged : Collaborators
logged = record {
  W = World;
  F = ℕ;
  Interest = ℕ;
  perform = λ c w. record w { playout = after_call c w.playout; calls = c ∷ w.calls };
  fill_up_throws = λ w. false;
  express_throws = λ w. false;
  current_command = λ w. w.command;
  pipeline_limit = λ w. 12;
  initial_demand = λ w rate. 5;
  ffwd = λ n rate. n;
  seed_rate = 30;
}

abbrev quiet : World
quiet = record { playout = false; command = keep_pipeline; calls = [] }

abbrev thread : Metadata ℕ
thread = record {
  rate = 25;
  bundle_no = 0;
  seq_delta = 104;
  seq_key = 4;
  gop_pos = 5;
  gop_size = 30;
  delta_avg_seg_num = 3;
  delta_avg_parity_seg_num = 1;
  key_avg_seg_num = 9;
  key_avg_parity_seg_num = 2;
}

abbrev frame : ℕ → Segment ℕ
frame n = record {
  is_meta = false;
  is_delta = true;
  sample_class = delta;
  segment_class = data_segment;
  sample_no = n;
  paired_sequence_no = 4;
  metadata = thread;
}

abbrev new : Machine World ℕ
new = record {
  state = idle;
  world = quiet;
  metadata = none;
  bootstrap_delta = 0;
  bootstrap_key = 0;
  start_off_delta = 0;
  start_off_key = 0;
  pipeline_lower_limit = 3;
  attached = 1;
  rebufferings = 0;
  stat_state = 1;
}

abbrev waiting : Machine World ℕ
waiting = record new {
  state = bootstrapping;
  metadata = some thread;
  bootstrap_delta = 100;
  bootstrap_key = 4;
  start_off_delta = 109;
  start_off_key = 4;
}

abbrev playing : Machine World ℕ
playing = record new { state = fetching; world = record quiet { playout = true } }

starved : segment_starvation logged video playing ≡ dispatch logged 2 video (starvation 500) playing
unfolding segment_starvation dispatch
starved = refl

dispatch-eq-flat_dispatch_example :
    dispatch logged 2 video (starvation 500) playing
    ≡ flat_dispatch logged video (starvation 500) playing
dispatch-eq-flat_dispatch_example =
    dispatch-eq-flat_dispatch logged 0 video (starvation 500) playing

video_asks_no_seed : (w : World) → seed_throws logged video w ≡ false
unfolding seed_throws
video_asks_no_seed w = refl

starvation_restarts_example :
    (t : Machine World ℕ) × (dispatch logged 2 video (starvation 500) playing ≡ ok t)
    × (t.state ≡ bootstrapping)
    × (t.attached ≡ 1)
    × (t.rebufferings ≡ 0 + 2)
    × (t.stat_state ≡ to_int idle)
    × (t.stat_state ≢ to_int t.state)
starvation_restarts_example =
    starvation_restarts logged 0 video 500 playing 0 video_asks_no_seed (inr refl) refl

abbrev late : Machine World ℕ
late = record playing { world = record quiet { command = increase_pipeline } }

playback_driven_increase_throws_example :
    dispatch logged 2
      (playback_driven (record { pipeline_size = 8; seed_key_no = 3 }))
      (segment (frame 9))
      late
    ≡ throws unsupported_state
        (record late { world = record late.world { calls = fill_up_pipeline ∷ [] } })
playback_driven_increase_throws_example =
    playback_driven_increase_throws logged 0 (record { pipeline_size = 8; seed_key_no = 3 }) late
      (frame 9) refl refl refl

dispatch-Edge_example : Edge video idle bootstrapping
unfolding dispatch
dispatch-Edge_example = dispatch-Edge logged 0 video start new _ refl

Reach-create-IsSynced_example : false ≡ is_playing bootstrapping
unfolding dispatch create
Reach-create-IsSynced_example =
    Reach-create-IsSynced logged (λ w. w.playout) (λ c w. refl) video quiet 0 3 0 1 _
      (dispatched start (observed 1 here))
