-- ===== src/Tests/Latencies.antt =====
-- The latency control (cpp/src/latency-control.cpp) over averages of whole numbers.
use ndnrtc.Base.{
  ℕ, ◌-◌, ◌/◌, ◌≡◌, ◌≢◌, refl, Bool, true, false, List, [], ◌∷◌, leb, ◌==◌, arith, All,
}
use ndnrtc.PipelineControl.Types.{
  PipelineAdjust, increase_pipeline, decrease_pipeline, keep_pipeline,
}
use ndnrtc.LatencyControl.{Averages, LatencyControl, sample_arrived, new_data_arrived}
use ndnrtc.LatencyControl.Commands.{
  Happening, sampled, rate_updated, commands, increases_are_spaced, decrease_is_awaited,
}

-- An average is its latest value.
abbrev latest : Averages
latest = record {
  F = ℕ;
  of_nat = λ n. n;
  per_cent = λ n. n;
  sub = λ a b. a - b;
  div = λ a b. a / b;
  abs = λ a. a;
  le = leb;
  is_zero = λ a. a == 0;
  Average = ℕ;
  new_average = λ n. 0;
  new_value = λ a x. x;
  value = λ a. a;
  oldest_value = λ a. a;
  latest_value = λ a. a;
  deviation = λ a. 0;
}

-- Not stable, and the last change was at 100; the window is 300.
abbrev unstable : LatencyControl latest
unstable = record {
  stability = record {
    sample_size = 10;
    min_occurrences = 4;
    threshold = 0;
    rate_similarity_level = 1;
    n_stable_occurrences = 0;
    n_unstable_occurrences = 0;
    last_timestamp = 0;
    is_stable = false;
    m1 = 0;
    m2 = 0;
  };
  drd_change = record {
    sample_size = 7;
    min_occurrences = 3;
    threshold = 0;
    n_stable_occurrences = 0;
    is_stable = false;
    n_changes = 0;
    n_minor_consecutive_changes = 0;
    last_checked_change_number = 0;
  };
  wait_for_change = false;
  wait_for_stability = false;
  timestamp = 100;
  timeout_window_ms = 300;
  target_rate = 30;
  current_command = keep_pipeline;
}

abbrev stable : LatencyControl latest
stable = record unstable {
  stability = record unstable.stability { is_stable = true; n_stable_occurrences = 4 };
}

abbrev agreed : PipelineAdjust → Bool
agreed c = true

stale_increases : (sample_arrived latest agreed unstable 500).current_command ≡ increase_pipeline
unfolding sample_arrived new_data_arrived
stale_increases = refl

stable_decreases : (sample_arrived latest agreed stable 500).current_command ≡ decrease_pipeline
unfolding sample_arrived new_data_arrived
stable_decreases = refl

abbrev afterwards : List (Happening latest)
afterwards = sampled agreed 600 ∷ rate_updated 25 ∷ sampled agreed 700 ∷ []

window_kept :
    ((sample_arrived latest agreed unstable 500).timeout_window_ms ≡ 300)
    × ((sample_arrived latest agreed stable 500).timeout_window_ms ≡ 300)
unfolding sample_arrived new_data_arrived
window_kept = (refl, refl)

increases_are_spaced_example :
    All
      (λ c. c ≢ increase_pipeline)
      (commands latest (sample_arrived latest agreed unstable 500) afterwards)
increases_are_spaced_example =
    increases_are_spaced latest agreed unstable 500 afterwards (omega arith) stale_increases (
      (omega arith, omega (arith, window_kept.0)),
      (tt, ((omega arith, omega (arith, window_kept.0)), tt)),
    )

decrease_is_awaited_example :
    All
      (λ c. c ≡ keep_pipeline)
      (commands latest (sample_arrived latest agreed stable 500) afterwards)
decrease_is_awaited_example =
    decrease_is_awaited latest agreed stable 500 afterwards (omega arith) stable_decreases refl
      (omega (arith, window_kept.1), (tt, (omega (arith, window_kept.1), tt)))
