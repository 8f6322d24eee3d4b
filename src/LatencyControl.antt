-- ===== src/LatencyControl.antt =====
-- cpp/src/latency-control.cpp: the two estimators, and LatencyControl, that decides by them when the
-- pipeline is to shrink or to grow. The playout's target size and the statistics are left out.
pub mod Commands
use ndnrtc.Base.{
  ℕ, zero, suc, ◌+◌, ◌-◌, Bool, true, false, not, ◌&&◌, Option, none, some, leb, ltb, ◌==◌,
  if◌then◌else◌, u32,
}
use ndnrtc.PipelineControl.Types.{
  PipelineAdjust, increase_pipeline, decrease_pipeline, keep_pipeline,
}

-- The arithmetic of doubles, and the averages of cpp/src/estimators.cpp over sliding windows.
pub record Averages : Type 1 where
  pub F : Type 0
  pub of_nat : ℕ → F
  pub per_cent : ℕ → F
  pub sub : F → F → F
  pub div : F → F → F
  pub abs : F → F
  pub le : F → F → Bool
  pub is_zero : F → Bool
  pub Average : Type 0
  pub new_average : ℕ → Average
  pub new_value : Average → F → Average
  pub value : Average → F
  pub oldest_value : Average → F
  pub latest_value : Average → F
  pub deviation : Average → F

module _ (R : Averages) where
  open R use {F, Average}

  pub record StabilityEstimator : Type 0 where
    pub sample_size : ℕ
    pub min_occurrences : ℕ
    pub threshold : F
    pub rate_similarity_level : F
    pub n_stable_occurrences : ℕ
    pub n_unstable_occurrences : ℕ
    pub last_timestamp : ℕ
    pub is_stable : Bool
    pub m1 : Average
    pub m2 : Average

  pub record DrdChangeEstimator : Type 0 where
    pub sample_size : ℕ
    pub min_occurrences : ℕ
    pub threshold : F
    pub n_stable_occurrences : ℕ
    pub is_stable : Bool
    pub n_changes : ℕ
    pub n_minor_consecutive_changes : ℕ
    pub last_checked_change_number : ℕ

  -- `timestamp` is 0 before the first sample.
  pub record LatencyControl : Type 0 where
    pub stability : StabilityEstimator
    pub drd_change : DrdChangeEstimator
    pub wait_for_change : Bool
    pub wait_for_stability : Bool
    pub timestamp : ℕ
    pub timeout_window_ms : ℕ
    pub target_rate : F
    pub current_command : PipelineAdjust

  unfoldable pub flush_stability : StabilityEstimator → StabilityEstimator
  flush_stability s = record s {
    is_stable = false;
    n_stable_occurrences = 0;
    n_unstable_occurrences = 0;
    last_timestamp = 0;
    m1 = R.new_average s.sample_size;
    m2 = R.new_average s.sample_size;
  }

  -- An occurrence that is stable, or is not.
  unfoldable pub note_occurrence : Bool → StabilityEstimator → StabilityEstimator
  note_occurrence good s =
      let n =
        if good
        then s.n_stable_occurrences + 1
        else if leb s.min_occurrences (s.n_unstable_occurrences + 1)
        then 0
        else s.n_stable_occurrences in
      record s {
        n_stable_occurrences = n;
        n_unstable_occurrences = if good then 0 else s.n_unstable_occurrences + 1;
        is_stable = leb s.min_occurrences n;
      }

  is_stable_occurrence : StabilityEstimator → F → F → F → Bool
  is_stable_occurrence s mean mean2 rate =
      let target_delay = R.div (R.of_nat 1000) rate in
      let similarity = R.sub (R.of_nat 1) (R.div (R.abs (R.sub mean target_delay)) target_delay) in
      R.le (R.abs (R.sub (R.div mean2 mean) (R.of_nat 1))) s.threshold
      && R.le s.rate_similarity_level similarity

  measure : StabilityEstimator → F → StabilityEstimator
  unfolding note_occurrence is_stable_occurrence
  measure s rate =
      let mean = R.value s.m1 in
      let mean2 = R.value s.m2 in
      if not (R.is_zero mean) && not (R.is_zero mean2)
      then note_occurrence (is_stable_occurrence s mean mean2 rate) s
      else s

  unfoldable pub new_data_arrived : StabilityEstimator → F → ℕ → StabilityEstimator
  unfolding measure
  new_data_arrived s rate now =
      let delta = u32 (now - s.last_timestamp) in
      let t =
        if s.last_timestamp == 0
        then s
        else measure
            (record s {
              m2 = R.new_value s.m2 (R.oldest_value s.m1);
              m1 = R.new_value s.m1 (R.of_nat delta);
            })
            rate in
      record t { last_timestamp = now }

  unfoldable pub flush_drd_change : DrdChangeEstimator → DrdChangeEstimator
  flush_drd_change d = record d {
    is_stable = false;
    n_stable_occurrences = 0;
    n_changes = 0;
    n_minor_consecutive_changes = 0;
    last_checked_change_number = 0;
  }

  note_change : DrdChangeEstimator → F → DrdChangeEstimator
  note_change d change =
      if R.le (R.per_cent 8) change
      then (if R.le change (R.per_cent 20)
          then (if leb d.sample_size (d.n_minor_consecutive_changes + 1)
              then record d { n_minor_consecutive_changes = 0; n_changes = d.n_changes + 1 }
              else record d { n_minor_consecutive_changes = d.n_minor_consecutive_changes + 1 })
          else record d { n_changes = d.n_changes + 1 })
      else record d { n_minor_consecutive_changes = 0 }

  note_deviation : DrdChangeEstimator → F → DrdChangeEstimator
  note_deviation d deviation =
      if R.le deviation d.threshold
      then record d {
        n_stable_occurrences = d.n_stable_occurrences + 1;
        is_stable = leb d.min_occurrences (d.n_stable_occurrences + 1);
      }
      else record d {
        n_changes = 0;
        n_minor_consecutive_changes = 0;
        n_stable_occurrences = 0;
        is_stable = leb d.min_occurrences 0;
      }

  unfoldable pub new_drd_value : DrdChangeEstimator → Average → DrdChangeEstimator
  unfolding note_change note_deviation
  new_drd_value d a =
      let mean = R.value a in
      let e = note_deviation d (R.div (R.deviation a) mean) in
      let change = R.div (R.abs (R.sub (R.latest_value a) mean)) mean in
      if R.is_zero mean then d else if e.is_stable then note_change e change else e

  unfoldable pub has_change : DrdChangeEstimator → DrdChangeEstimator × Bool
  has_change d = (
    record d { last_checked_change_number = d.n_changes },
    ltb d.last_checked_change_number d.n_changes,
  )

  -- Both estimators are flushed, and the interArrival average, that nothing reads, is left out.
  unfoldable pub reset : F → LatencyControl → LatencyControl
  unfolding flush_stability flush_drd_change
  reset thirty l = record l {
    stability = flush_stability l.stability;
    drd_change = flush_drd_change l.drd_change;
    timestamp = 0;
    wait_for_change = false;
    wait_for_stability = false;
    target_rate = thirty;
    current_command = keep_pipeline;
  }

  unfoldable pub on_drd_update : LatencyControl → Average → LatencyControl
  unfolding new_drd_value
  on_drd_update l a = record l { drd_change = new_drd_value l.drd_change a }

  unfoldable pub target_rate_update : LatencyControl → F → LatencyControl
  target_rate_update l rate = record l { target_rate = rate }

  pipeline_changed : LatencyControl → ℕ → LatencyControl
  unfolding flush_drd_change
  pipeline_changed l now =
      let d = flush_drd_change l.drd_change in
      elim l.current_command [
        | decrease_pipeline ↦ record l { drd_change = d; timestamp = now; wait_for_change = true }
        | _ ↦ record l { drd_change = d }
      ]

  -- The decision of `sampleArrived`, with the time of its last change.
  decide : LatencyControl → Bool → ℕ → LatencyControl × PipelineAdjust
  unfolding has_change
  decide l timeout_fired now =
      let (d, changed) = has_change l.drd_change in
      let m = record l { drd_change = d } in
      if l.stability.is_stable
      then (if l.wait_for_change
          then (if changed
              then (
                record m { timestamp = now; wait_for_stability = true; wait_for_change = false },
                keep_pipeline,
              )
              else (m, (if timeout_fired then decrease_pipeline else keep_pipeline)))
          else (record l { wait_for_stability = false }, decrease_pipeline))
      else if timeout_fired
      then (
        record l { timestamp = now; wait_for_stability = true; wait_for_change = false },
        increase_pipeline,
      )
      else (l, keep_pipeline)

  start_clock : LatencyControl → ℕ → LatencyControl
  start_clock l now = if l.timestamp == 0 then record l { timestamp = now } else l

  -- `agrees` is the observer's `needPipelineAdjustment`; without an observer it is `false`.
  unfoldable pub sample_arrived : (PipelineAdjust → Bool) → LatencyControl → ℕ → LatencyControl
  unfolding new_data_arrived pipeline_changed decide start_clock
  sample_arrived agrees l now =
      let m = start_clock l now in
      let timeout_fired = ltb (m.timestamp + m.timeout_window_ms) now in
      let fed = record m { stability = new_data_arrived m.stability m.target_rate now } in
      let (d, command) = decide fed timeout_fired now in
      let commanded = record d { current_command = command } in
      if agrees command then pipeline_changed commanded now else commanded
