-- ===== src/Tests/Samples.antt =====
-- Samples of a stream whose names are numbers.
use ndnrtc.Base.{ℕ, ◌*◌, ◌≡◌, ◌↔◌, ◌⊎◌, true, false, some, arith, ltb, ◌==◌}
use ndnrtc.FrameBuffer.Names.{
  Order, delta, data_segment, parity, SegmentKey, data_key, parity_key, Info, Interest, WireSegment,
}

-- Names are numbers.
pub eqb_iff_numbers : (a b : ℕ) → ((a == b) ≡ true) ↔ (a ≡ b)
eqb_iff_numbers a b = ground arith

pub lt_irrefl_numbers : (a : ℕ) → ltb a a ≡ false
lt_irrefl_numbers a = ground arith

pub lt_trans_numbers : (a b c : ℕ) → ltb a b ≡ true → ltb b c ≡ true → ltb a c ≡ true
lt_trans_numbers a b c = ground arith

pub lt_total_numbers : (a b : ℕ) → (ltb a b ≡ true) ⊎ (a ≡ b) ⊎ (ltb b a ≡ true)
lt_total_numbers a b = ground arith

instance abbrev pub numbers : Order ℕ
numbers = record {
  eqb = λ a b. a == b;
  lt = λ a b. ltb a b;
  eqb_iff = eqb_iff_numbers;
  lt_irrefl = lt_irrefl_numbers;
  lt_trans = lt_trans_numbers;
  lt_total = lt_total_numbers;
}

-- The name of a segment of sample `n`.
abbrev pub info_of : ℕ → SegmentKey → Info ℕ
info_of n k = elim k [
  | data_key j ↦ record {
    prefix = n;
    is_video = true;
    sample_class = delta;
    segment_class = data_segment;
    is_delta = true;
    is_parity = false;
    has_seq_no = true;
    has_seg_no = true;
    sample_no = n;
    seg_no = j;
  }
  | parity_key j ↦ record {
    prefix = n;
    is_video = true;
    sample_class = delta;
    segment_class = parity;
    is_delta = true;
    is_parity = true;
    has_seq_no = true;
    has_seg_no = true;
    sample_no = n;
    seg_no = j;
  }
]

abbrev pub interest_in : ℕ → SegmentKey → Interest ℕ
interest_in n k = record { tag = 0; info = some (info_of n k) }

-- A sample of two data segments and two parity segments, taken at time 100 * n.
abbrev pub segment_of : ℕ → SegmentKey → WireSegment ℕ
segment_of n k = record {
  info = info_of n k;
  slices_num = 2;
  content_size = 1000;
  is_original = true;
  generation_delay_ms = 5;
  header = record { sample_rate = 30; publish_timestamp_ms = 100 * n };
}
