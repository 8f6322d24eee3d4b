-- ===== src/SampleEstimator.antt =====
-- SampleEstimator: the average number and size of the segments of a sample, for each class of samples
-- and segments (cpp/src/sample-estimator.cpp).
pub mod Estimates
use ndnrtc.Base.{ℕ, Bool, true, false, ◌&&◌, ◌||◌, if◌then◌else◌, ℤ, pos, List, [], ◌∷◌}
use ndnrtc.Media.{
  SampleClass, unknown_sample, key, delta, SegmentClass, data_segment, parity, is_same_sample,
  is_same_segment,
}
use ndnrtc.FrameBuffer.Names.{WireSegment}
use ndnrtc.Estimators.{Doubles, Average, average, new_value, samples_of}

-- SampleEstimator::Estimators
pub record Estimators (D : Type 0) : Type 0 where
  pub seg_num : Average D
  pub seg_size : Average D

-- The indicators of the statistics that it writes.
pub record Indicators : Type 0 where
  pub delta_num : ℕ
  pub delta_parity_num : ℕ
  pub key_num : ℕ
  pub key_parity_num : ℕ

-- SampleEstimator. Every entry that the map lacks is the one that its `operator[]` makes, which is also
-- what the entries are after `reset`.
pub record SampleEstimator (D : Type 0) : Type 0 where
  pub estimators : SampleClass → SegmentClass → Estimators D
  pub indicators : Indicators

-- The entry of a class changes.
unfoldable pub update :
    {D : Type 0}
    → SampleClass
    → SegmentClass
    → (Estimators D → Estimators D)
    → (SampleClass → SegmentClass → Estimators D)
    → SampleClass
    → SegmentClass
    → Estimators D
update st dt f m s d = if is_same_sample s st && is_same_segment d dt then f (m s d) else m s d

module _ {D : Type 0} (F : Doubles D) where
  -- SampleEstimator::Estimators::_Estimators
  abbrev pub blank : Estimators D
  blank = record { seg_num = average F (samples_of 30); seg_size = average F (samples_of 30) }

  -- SampleEstimator::reset, and the constructor, which only calls it.
  abbrev pub reset : SampleEstimator D
  reset = record {
    estimators = λ s d. blank;
    indicators = record { delta_num = 0; delta_parity_num = 0; key_num = 0; key_parity_num = 0 };
  }

  abbrev pub add_number : ℕ → D → Estimators D → Estimators D
  add_number now x e = record e { seg_num = new_value F now x e.seg_num }

  abbrev pub add_size : ℕ → D → Estimators D → Estimators D
  add_size now x e = record e { seg_size = new_value F now x e.seg_size }

  -- SampleEstimator::bootstrapSegmentNumber and SampleEstimator::bootstrapSegmentSize
  unfoldable pub bootstrap_segment_number :
      ℕ → D → SampleClass → SegmentClass → SampleEstimator D → SampleEstimator D
  bootstrap_segment_number now x st dt e = record e {
    estimators =
        update st dt (add_number now (if F.is_positive x then x else F.of_int (pos 1)))
          e.estimators;
  }

  unfoldable pub bootstrap_segment_size :
      ℕ → D → SampleClass → SegmentClass → SampleEstimator D → SampleEstimator D
  bootstrap_segment_size now x st dt e = record e {
    estimators =
        update st dt (add_size now (if F.is_positive x then x else F.of_int (pos 1000)))
          e.estimators;
  }

  module _ {K : Type 0} where
    -- Both averages of the class of a segment get what it says.
    unfoldable pub note_segment : ℕ → WireSegment K → Estimators D → Estimators D
    note_segment now w e =
        add_size now (F.of_int (pos w.content_size))
          (add_number now (F.of_int (pos w.slices_num)) e)

    -- The statistics that segmentArrived writes.
    unfoldable pub write_indicators : WireSegment K → Indicators → Indicators
    write_indicators w i = elim w.info.sample_class [
      | unknown_sample ↦ i
      | delta ↦
          if is_same_segment w.info.segment_class data_segment
          then record i { delta_num = w.slices_num }
          else record i { delta_parity_num = w.slices_num }
      | key ↦
          if is_same_segment w.info.segment_class data_segment
          then record i { key_num = w.slices_num }
          else record i { key_parity_num = w.slices_num }
    ]

    -- SampleEstimator::segmentArrived
    unfoldable pub segment_arrived : ℕ → WireSegment K → SampleEstimator D → SampleEstimator D
    segment_arrived now w e =
        if is_same_sample w.info.sample_class key || is_same_sample w.info.sample_class delta
        then record {
          estimators =
              update w.info.sample_class w.info.segment_class (note_segment now w) e.estimators;
          indicators = write_indicators w e.indicators;
        }
        else e

-- SampleEstimator::getSegmentNumberEstimation and SampleEstimator::getSegmentSizeEstimation
abbrev pub get_segment_number_estimation :
    {D : Type 0} → SampleClass → SegmentClass → SampleEstimator D → D
get_segment_number_estimation st dt e = (e.estimators st dt).seg_num.value

abbrev pub get_segment_size_estimation :
    {D : Type 0} → SampleClass → SegmentClass → SampleEstimator D → D
get_segment_size_estimation st dt e = (e.estimators st dt).seg_size.value
