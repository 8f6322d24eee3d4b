-- ===== src/Tests/Fillings.antt =====
-- A pipeliner (cpp/src/pipeliner.cpp) that fills a window of two samples.
use ndnrtc.Base.{ℕ, ◌+◌, ◌≡◌, ◌≢◌, refl, true, false, none, some, [], ◌∷◌, arith}
use ndnrtc.FrameBuffer.Names.{delta, key, data_segment, data_key}
use ndnrtc.FrameBuffer.SampleMap.{find, put}
use ndnrtc.FrameBuffer.Slot.{returns}
use ndnrtc.FrameBuffer.Buffer.{requested}
use ndnrtc.InterestControl.Defs.{InterestControl, room, increment}
use ndnrtc.Pipeliner.{Outside, Pipeliner, fill_up_pipeline, get_batch}
use ndnrtc.Pipeliner.Filling.{IsSmall, Filled, fill_up_ends, fill_up_fills}
use ndnrtc.Tests.Samples.{numbers, interest_in}

-- Key samples have even names and Delta samples odd ones; each has one segment.
abbrev outside : Outside ℕ
outside = record {
  sample_name = λ c n. elim c [ delta ↦ n + n + 1 | _ ↦ n + n ];
  interest = λ n k. interest_in n k;
  metadata_interest = interest_in 0 (data_key 0);
  segment_number = λ c s. elim s [ data_segment ↦ 1 | _ ↦ 0 ];
  queue_size = λ b. 50;
}

abbrev window : InterestControl ℕ
window = record {
  initialized = true;
  limit_set = false;
  lower_limit = 3;
  limit = 4;
  upper_limit = 30;
  pipeline = 2;
  target_rate = 25;
  stat_dw = 4;
  stat_w = 2;
}

abbrev idle_pipeliner : Pipeliner ℕ ℕ
idle_pipeliner = record {
  seq_delta = 10;
  seq_key = 3;
  next_sample_priority = key;
  requested_num = 0;
  requested_key_num = 0;
  double_rt_frames = 0;
  double_rt_frames_key = 0;
  sent = [];
  buffer = record {
    pool = record { capacity = 2; slots = [] };
    active_slots = [];
    reserved_slots = [];
    counters = record {
      assembled_num = 0;
      assembled_key_num = 0;
      dropped_num = 0;
      dropped_key_num = 0;
      incomplete_num = 0;
      incomplete_key_num = 0;
      acquired_num = 0;
      acquired_key_num = 0;
    };
  };
  interest_control = window;
}

idle_pipeliner-IsSmall : IsSmall idle_pipeliner
idle_pipeliner-IsSmall = record { small_limit = omega arith; small_pipeline = omega arith }

fill_up_ends_example : fill_up_pipeline outside 3 idle_pipeliner 70 ≢ none
fill_up_ends_example = fill_up_ends outside 3 idle_pipeliner 70 idle_pipeliner-IsSmall (omega arith)

-- The buffer has no free slot, and the Interests are sent all the same.
abbrev two_sent : Pipeliner ℕ ℕ
two_sent = record idle_pipeliner {
  seq_delta = 11;
  seq_key = 4;
  next_sample_priority = delta;
  requested_num = 2;
  requested_key_num = 1;
  sent = (interest_in 6 (data_key 0), 50) ∷ (interest_in 21 (data_key 0), 50) ∷ [];
  interest_control = record window { pipeline = 4; stat_w = 4 };
}

fills : fill_up_pipeline outside 3 idle_pipeliner 70 ≡ some (returns two_sent tt)
unfolding fill_up_pipeline room increment requested find put get_batch
fills = refl

fill_up_fills_example : Filled outside idle_pipeliner two_sent
fill_up_fills_example =
    fill_up_fills outside 3 idle_pipeliner two_sent 70 idle_pipeliner-IsSmall fills
