-- ===== src/PipelineControl/Bootstrapping.antt =====
-- What the states have in common, and the states of bootstrapping
-- (cpp/src/pipeline-control-state-machine.cpp).
use ndnrtc.Base.{
  ℕ, ◌+◌, ◌*◌, Bool, true, false, ◌&&◌, Option, none, some, List, [], ◌∷◌, ltb, ◌==◌, if◌then◌else◌,
  u32, int_le, int_neg, sub32,
}
use ndnrtc.PipelineControl.Types.{
  StateName, bootstrapping, adjusting, fetching, delta, key, data_segment, parity, RuleSet, Kind,
  audio, video, playback_driven, Metadata, Segment, Call, allow_playout, drd_estimator_reset,
  express_bootstrap, fill_up_pipeline, interest_control_initialize, mark_lower_limit,
  set_sequence_number, set_need_sample, express_sample, bootstrap_segment_number, Collaborators,
  Machine,
}

module _ (C : Collaborators) where
  open C use {
    W, F, Interest, perform, fill_up_throws, express_throws, current_command, pipeline_limit,
    initial_demand, ffwd, seed_rate,
  }

  -- The calls in the order in which the code makes them.
  abbrev pub performs : List (Call F Interest) → W → W
  performs [] w = w
  performs (c ∷ cs) w = performs cs (perform c w)

  abbrev pub call : Machine W F → List (Call F Interest) → Machine W F
  call m cs = record m { world = performs cs m.world }

  unfoldable pub ask_metadata : Machine W F → Machine W F
  ask_metadata m = call m (drd_estimator_reset ∷ express_bootstrap ∷ [])

  -- The calls of `askSeedFrame` before the one that can throw.
  abbrev pub prepare_seed : RuleSet → W → W
  prepare_seed r = performs (
      interest_control_initialize seed_rate r.pipeline_size
      ∷ mark_lower_limit r.pipeline_size
      ∷ set_sequence_number r.seed_key_no key
      ∷ set_need_sample key
      ∷ [])

  unfoldable pub ask_seed_frame : RuleSet → Machine W F → Machine W F
  ask_seed_frame r m = record m { world = perform (express_sample true) (prepare_seed r m.world) }

  -- Whether asking for what a Bootstrapping state starts with throws; `ask_seed_frame` is the machine
  -- that is left in either case.
  unfoldable pub seed_throws : Kind → W → Bool
  seed_throws audio w = false
  seed_throws video w = false
  seed_throws (playback_driven r) w = express_throws (prepare_seed r w)

  -- What a handler leaves: the machine, and the name of the next state unless it threw.
  abbrev pub Handled : Type 0
  Handled = Machine W F × Option StateName

  -- `fillUpPipeline`, and what a handler does next if it returns.
  abbrev pub fill_up_then : Machine W F → (Machine W F → Machine W F × StateName) → Handled
  fill_up_then m rest =
      let filled = call m (fill_up_pipeline ∷ []) in
      let (after, next) = rest filled in
      if fill_up_throws m.world then (filled, none) else (after, some next)

  -- `processMetadata` of a video thread.
  unfoldable pub process_video_metadata : Metadata F → Machine W F → Handled
  process_video_metadata md m =
      let demand = initial_demand m.world md.rate in
      let early = ltb (2 * md.gop_pos) md.gop_size in
      let rest_of_gop = sub32 md.gop_size md.gop_pos in
      let first_delta_in_gop =
        if md.gop_pos == 0 then md.seq_delta else sub32 md.seq_delta (sub32 md.gop_pos 1) in
      let delta_to_fetch = if early then first_delta_in_gop else md.seq_delta in
      let key_to_fetch = if early then md.seq_key else u32 (md.seq_key + 1) in
      let pipeline_initial = u32 (demand + (if early then md.gop_pos else rest_of_gop)) in
      let asked = record m {
        start_off_delta =
            if early
            then u32 (md.seq_delta + demand)
            else if ltb demand rest_of_gop
            then int_neg 1
            else u32 (md.seq_delta + demand);
        start_off_key = key_to_fetch;
        world =
            performs
              (bootstrap_segment_number md.delta_avg_seg_num delta data_segment
                ∷ bootstrap_segment_number md.delta_avg_parity_seg_num delta parity
                ∷ bootstrap_segment_number md.key_avg_seg_num key data_segment
                ∷ bootstrap_segment_number md.key_avg_parity_seg_num key parity
                ∷ interest_control_initialize md.rate pipeline_initial
                ∷ set_sequence_number delta_to_fetch delta
                ∷ set_sequence_number key_to_fetch key
                ∷ set_need_sample key
                ∷ [])
              m.world;
      } in
      fill_up_then asked (λ filled. (
        record filled { bootstrap_delta = delta_to_fetch; bootstrap_key = key_to_fetch },
        bootstrapping,
      ))

  -- `processMetadata` of an audio thread.
  unfoldable pub process_audio_metadata : Metadata F → Machine W F → Handled
  process_audio_metadata md m =
      let pipeline_initial = initial_demand m.world md.rate in
      let asked = call m (
        interest_control_initialize md.rate pipeline_initial
        ∷ set_sequence_number md.bundle_no delta
        ∷ set_need_sample delta
        ∷ []) in
      fill_up_then asked (λ filled. (
        record filled {
          bootstrap_delta = md.bundle_no;
          bootstrap_key = int_neg 1;
          start_off_delta = u32 (md.bundle_no + pipeline_initial);
          start_off_key = int_neg 1;
        },
        bootstrapping,
      ))

  -- The sequence number of the delta frame that a video segment belongs to, or is paired with.
  abbrev pub current_delta : Segment F → ℕ
  current_delta s = if s.is_delta then s.sample_no else s.paired_sequence_no

  abbrev pub current_key : Segment F → ℕ
  current_key s = if s.is_delta then s.paired_sequence_no else s.sample_no

  unfoldable pub received_start_off_video : Machine W F → Segment F → Bool
  received_start_off_video m s =
      int_le m.start_off_delta (current_delta s) && int_le m.start_off_key (current_key s)

  unfoldable pub received_start_off_audio : Machine W F → Segment F → Bool
  received_start_off_audio m s = int_le m.start_off_delta s.sample_no

  abbrev has_metadata : Option (Metadata F) → Bool
  has_metadata none = false
  has_metadata (some md) = true

  unfoldable pub is_expected_video : Machine W F → Segment F → Bool
  is_expected_video m s =
      if has_metadata m.metadata
      then (if s.is_delta
          then int_le m.bootstrap_delta s.sample_no
          else int_le m.bootstrap_key s.sample_no)
      else false

  unfoldable pub is_expected_audio : Machine W F → Segment F → Bool
  is_expected_audio m s = has_metadata m.metadata && int_le m.bootstrap_delta s.sample_no

  -- `metadata_->getRate()`; the pointer is set where this is called.
  abbrev metadata_rate : Option (Metadata F) → F
  metadata_rate none = seed_rate
  metadata_rate (some md) = md.rate

  unfoldable pub ffwd_video : Machine W F → Segment F → ℕ
  ffwd_video m s = ffwd (sub32 (current_delta s) m.bootstrap_delta) (metadata_rate m.metadata)

  unfoldable pub ffwd_audio : Machine W F → Segment F → ℕ
  ffwd_audio m s = ffwd (sub32 s.sample_no m.bootstrap_delta) (metadata_rate m.metadata)

  -- The rest of `BootstrappingT::onSegment` for a frame segment, given the answers of the three
  -- functions that differ between audio and video.
  unfoldable pub bootstrapping_frame : (expected start_off : Bool) → ℕ → Machine W F → Handled
  bootstrapping_frame expected start_off ffwd_ms m =
      if expected
      then fill_up_then m (λ filled.
        if start_off
        then (call filled (allow_playout true ffwd_ms ∷ []), adjusting)
        else (filled, bootstrapping))
      else (m, some bootstrapping)

  unfoldable pub seed_bootstrapping_segment : Machine W F → Segment F → Handled
  seed_bootstrapping_segment m s = elim s.sample_class [
    | key ↦
        fill_up_then
          (call m (
            set_sequence_number (u32 (s.sample_no + 1)) key
            ∷ set_sequence_number s.paired_sequence_no delta
            ∷ []))
          (λ filled. (call filled (allow_playout true 0 ∷ []), fetching))
    | _ ↦ (m, some bootstrapping)
  ]

  unfoldable pub bootstrapping_segment : Kind → Machine W F → Segment F → Handled
  unfolding process_audio_metadata process_video_metadata bootstrapping_frame
      seed_bootstrapping_segment is_expected_audio is_expected_video received_start_off_audio
      received_start_off_video ffwd_audio ffwd_video
  bootstrapping_segment audio m s =
      if s.is_meta
      then process_audio_metadata s.metadata (record m { metadata = some s.metadata })
      else bootstrapping_frame (is_expected_audio m s) (received_start_off_audio m s)
          (ffwd_audio m s) m
  bootstrapping_segment video m s =
      if s.is_meta
      then process_video_metadata s.metadata (record m { metadata = some s.metadata })
      else bootstrapping_frame (is_expected_video m s) (received_start_off_video m s)
          (ffwd_video m s) m
  bootstrapping_segment (playback_driven r) m s = seed_bootstrapping_segment m s
