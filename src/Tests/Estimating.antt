-- ===== src/Tests/Estimating.antt =====
-- Concrete runs of the estimators, and the theorems about them at concrete inputs.
use ndnrtc.Base.{
  ℕ, ◌*◌, ◌/◌, ◌≡◌, refl, List, [], ◌∷◌, map, ℤ, pos, ◌+ℤ◌, ◌-ℤ◌, pos_part, ltb, same_ℤ, arith,
}
use ndnrtc.Media.{delta, data_segment}
use ndnrtc.FrameBuffer.Names.{WireSegment, data_key, parity_key}
use ndnrtc.Estimators.{Doubles, samples_of, average, is_limit_reached, freq_meter, tick, cut}
use ndnrtc.Estimators.Sums.{IsExact, latest, feed, mean, number}
use ndnrtc.Estimators.Sliding.{feed-latest}
use ndnrtc.SampleEstimator.{reset, get_segment_number_estimation, get_segment_size_estimation}
use ndnrtc.SampleEstimator.Estimates.{arrive_all, estimates-latest, numbers, sizes}
use ndnrtc.Tests.Samples.{segment_of}

-- Whole numbers in the place of doubles.
abbrev whole : Doubles ℤ
whole = record {
  add = ◌+ℤ◌;
  sub = ◌-ℤ◌;
  mul = λ x y. pos (pos_part x * pos_part y);
  quot = λ x y. pos (pos_part x / pos_part y);
  of_int = λ x. x;
  is_zero = λ x. same_ℤ x (pos 0);
  is_positive = λ x. ltb 0 (pos_part x);
  is_same = same_ℤ;
}

whole-IsExact : IsExact whole 100000
whole-IsExact = record { add_int = λ x y hx hy h. refl; sub_int = λ x y hx hy h. refl }

-- The third value of a window of two replaces the first.
feed-latest_example :
    let a =
      feed whole (average whole (samples_of 2)) ((1, pos 10) ∷ (2, pos 20) ∷ (3, pos 40) ∷ []) in
    a.samples ≡ map (number whole) (latest 2 ((1, pos 10) ∷ (2, pos 20) ∷ (3, pos 40) ∷ []))
    × a.value ≡ mean whole (latest 2 ((1, pos 10) ∷ (2, pos 20) ∷ (3, pos 40) ∷ []))
feed-latest_example =
    feed-latest whole 50 2 100000 whole-IsExact (omega arith) (omega arith) (1, pos 10)
      ((2, pos 20) ∷ (3, pos 40) ∷ []) (omega arith, (omega arith, (omega arith, tt)))

-- A meter over a window of two samples keeps one of them, so that it has no frequency.
meter_of_two :
    (tick whole 300 (tick whole 200 (tick whole 100 (freq_meter whole (samples_of 2))))).samples
    ≡ 300 ∷ []
unfolding tick is_limit_reached cut
meter_of_two = refl

-- A data segment of each of two samples, and a parity segment between them.
abbrev segments : List (ℕ × WireSegment ℕ)
segments =
    (100, segment_of 7 (data_key 0))
    ∷ (110, segment_of 7 (parity_key 0))
    ∷ (120, segment_of 8 (data_key 1))
    ∷ []

estimates-latest_example :
    let e = arrive_all whole (reset whole) segments in
    get_segment_number_estimation delta data_segment e
      ≡ mean whole (latest 30 (numbers delta data_segment segments))
    × get_segment_size_estimation delta data_segment e
      ≡ mean whole (latest 30 (sizes delta data_segment segments))
estimates-latest_example =
    estimates-latest whole delta data_segment refl 1000 100000 whole-IsExact (omega arith) segments
      (100, pos 2) (100, pos 1000) ((120, pos 2) ∷ []) ((120, pos 1000) ∷ []) refl refl
      (omega arith, (omega arith, tt)) (omega arith, (omega arith, tt))
