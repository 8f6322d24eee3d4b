-- ===== src/PipelineControl/Types.antt =====
-- Events, collaborators and the state of the pipeline control state machine
-- (cpp/src/pipeline-control-state-machine.hpp).
pub use ndnrtc.Media.{
  SampleClass, unknown_sample, key, delta, SegmentClass, unknown_segment, data_segment, parity,
  manifest, meta,
}
use ndnrtc.Base.{ℕ, Bool, Option}

-- The keys of the states map.
pub data StateName : Type 0 where
  idle bootstrapping adjusting fetching : StateName

-- PipelineControlState::StateId
abbrev pub to_int : StateName → ℕ
to_int idle = 1
to_int bootstrapping = 2
to_int adjusting = 3
to_int fetching = 4

-- The commands of LatencyControl.
pub data PipelineAdjust : Type 0 where
  increase_pipeline decrease_pipeline keep_pipeline : PipelineAdjust

-- RemoteVideoStream::FetchingRuleSet
pub record RuleSet : Type 0 where
  pub pipeline_size : ℕ
  pub seed_key_no : ℕ

-- Which of the three maps of states the machine has: the default one (audio), the video one, or the
-- one of playback driven by a seed frame.
pub data Kind : Type 0 where
  audio video : Kind
  playback_driven : RuleSet → Kind

-- The metadata of a thread. An audio thread has `bundle_no`, a video thread the rest. Packet numbers
-- are words of `int`s; `F` is the type of doubles.
pub record Metadata (F : Type 0) : Type 0 where
  pub rate : F
  pub bundle_no : ℕ
  pub seq_delta : ℕ
  pub seq_key : ℕ
  pub gop_pos : ℕ
  pub gop_size : ℕ
  pub delta_avg_seg_num : F
  pub delta_avg_parity_seg_num : F
  pub key_avg_seg_num : F
  pub key_avg_parity_seg_num : F

-- What the machine reads of a segment: its name's info, the header of a video frame segment and,
-- of a metadata segment, the metadata in it.
pub record Segment (F : Type 0) : Type 0 where
  pub is_meta : Bool
  pub is_delta : Bool
  pub sample_class : SampleClass
  pub segment_class : SegmentClass
  pub sample_no : ℕ
  pub paired_sequence_no : ℕ
  pub metadata : Metadata F

pub data Event (F Interest : Type 0) : Type 0 where
  start reset : Event F Interest
  starvation : ℕ → Event F Interest
  segment : Segment F → Event F Interest
  timeout : (is_meta : Bool) → Interest → Event F Interest
  nack : (is_meta : Bool) (reason : ℕ) → Interest → Event F Interest

-- The calls that the machine makes on its collaborators.
pub data Call (F Interest : Type 0) : Type 0 where
  buffer_reset pipeliner_reset latency_control_reset interest_control_reset : Call F Interest
  allow_playout : Bool → ℕ → Call F Interest
  drd_estimator_reset express_bootstrap fill_up_pipeline : Call F Interest
  interest_control_initialize : F → ℕ → Call F Interest
  mark_lower_limit : ℕ → Call F Interest
  set_sequence_number : ℕ → SampleClass → Call F Interest
  set_need_sample : SampleClass → Call F Interest
  express_sample : (place_in_buffer : Bool) → Call F Interest
  express_interest : Interest → Call F Interest
  bootstrap_segment_number : F → SampleClass → SegmentClass → Call F Interest
  interest_control_burst interest_control_withhold : Call F Interest

-- The interfaces behind `PipelineControlStateMachine::Struct`, as one world `W` that calls change.
-- `initial_demand w rate` is `calculateDemand(rate, drd, drd * 0.05)` of the current strategy at the
-- original DRD estimation; `ffwd n rate` is `(int)((double)n * rate)`; `seed_rate` is the double 30.
-- `fillUpPipeline`, and `express` with a place in the buffer, reach Buffer::requested, which can throw:
-- `fill_up_throws` and `express_throws` tell whether they do when called in a world, and `perform` is
-- the world that they leave in either case.
pub record Collaborators : Type 1 where
  pub W : Type 0
  pub F : Type 0
  pub Interest : Type 0
  pub perform : Call F Interest → W → W
  pub fill_up_throws : W → Bool
  pub express_throws : W → Bool
  pub current_command : W → PipelineAdjust
  pub pipeline_limit : W → ℕ
  pub initial_demand : W → F → ℕ
  pub ffwd : ℕ → F → ℕ
  pub seed_rate : F

-- The machine. `attached` counts the entries of `observers_`: only PipelineControl attaches itself.
-- The pairs of sequence numbers and the lower limit are members of the states; `rebufferings` and
-- `stat_state` are the indicators RebufferingsNum and State of the storage that the machine and
-- PipelineControl share. The time stamp that only the log shows is left out.
pub record Machine (W F : Type 0) : Type 0 where
  pub state : StateName
  pub world : W
  pub metadata : Option (Metadata F)
  pub bootstrap_delta : ℕ
  pub bootstrap_key : ℕ
  pub start_off_delta : ℕ
  pub start_off_key : ℕ
  pub pipeline_lower_limit : ℕ
  pub attached : ℕ
  pub rebufferings : ℕ
  pub stat_state : ℕ

-- The std::runtime_errors of the two files, and an exception that comes out of a collaborator.
pub data Error : Type 0 where
  unsupported_state already_started collaborator_threw : Error

-- A handler returns, or throws with the machine as it stands; `out_of_fuel` is no outcome of the
-- code.
pub data Outcome (A : Type 0) : Type 0 where
  ok : A → Outcome A
  throws : Error → A → Outcome A
  out_of_fuel : Outcome A

infixl 5 ◌>>=◌
abbrev pub ◌>>=◌ : {A : Type 0} → Outcome A → (A → Outcome A) → Outcome A
ok a >>= f = f a
throws e a >>= f = throws e a
out_of_fuel >>= f = out_of_fuel
