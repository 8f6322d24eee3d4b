-- ===== src/Media.antt =====
-- Classes of samples and of segments (cpp/include/name-components.hpp).
use ndnrtc.Base.{Bool, true, false}

pub data SampleClass : Type 0 where
  unknown_sample key delta : SampleClass

pub data SegmentClass : Type 0 where
  unknown_segment data_segment parity manifest meta : SegmentClass

-- `==` on the classes.
abbrev pub is_same_sample : SampleClass → SampleClass → Bool
is_same_sample unknown_sample unknown_sample = true
is_same_sample key key = true
is_same_sample delta delta = true
is_same_sample s t = false

abbrev pub is_same_segment : SegmentClass → SegmentClass → Bool
is_same_segment unknown_segment unknown_segment = true
is_same_segment data_segment data_segment = true
is_same_segment parity parity = true
is_same_segment manifest manifest = true
is_same_segment meta meta = true
is_same_segment d c = false
