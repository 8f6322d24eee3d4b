-- ===== src/Tests/Playing.antt =====
-- Concrete runs of playout and of its control, and the theorems about them at concrete inputs.
use ndnrtc.Base.{
  ℕ, ◌≡◌, refl, Bool, true, false, some, List, [], ◌∷◌, arith, ltb, ◌==◌, if◌then◌else◌, pos,
  negsuc, ◌+ℤ◌,
}
use ndnrtc.Playout.{Timing, Playout, reset_data, create, start_frame_playout, update_playout_time}
use ndnrtc.Playout.Pace.{iterate, begun, again, IsOnPace, Run-IsOnPace}
use ndnrtc.Playout.Video
use ndnrtc.Playout.Video.{Frame, is_skipped, note_skip, check_gop, decode, process_sample}
use ndnrtc.Playout.Decoding.{decoded, IsDecodable, process_all, process_all-IsDecodable}
use ndnrtc.PlayoutControl
use ndnrtc.PlayoutControl.{Doubles, Control, allow_playout, set_threshold}
use ndnrtc.PlayoutControl.Threshold.{created, allowed, threshold_set, IsSynced, Reach-IsSynced}

-- The first sample lasts 33 ms; the timer fires 2.5 ms late, and the next wait is 31 ms.
abbrev first_wait : Timing
first_wait = record {
  frame_playout_time_ms = 33;
  processing_time_usec = 0;
  playout_timestamp_usec = 1000000;
}

abbrev second_wait : Timing
second_wait = record {
  frame_playout_time_ms = 31;
  processing_time_usec = 500;
  playout_timestamp_usec = 1035500;
}

two_waits :
    (iterate 1000000 33 reset_data ≡ some first_wait)
    × (iterate 1035500 33 first_wait ≡ some second_wait)
unfolding start_frame_playout update_playout_time
two_waits = (refl, refl)

Run-IsOnPace_example : IsOnPace 1000000 66 second_wait
Run-IsOnPace_example =
    Run-IsOnPace 1000000 66 second_wait
      (again 1035500 33 33 first_wait (begun 33 (omega arith) two_waits.0) two_waits.1)

-- A fast-forward of 50 ms swallows a sample of 33 ms.
abbrev forwarded : Playout
forwarded = record create { is_running = true; delay_adjustment = negsuc 49 }

abbrev frame : Bool → ℕ → Frame
frame is_delta n = record {
  is_read = true;
  is_recovered = false;
  is_delta = is_delta;
  sample_no = n;
  playback_no = pos n;
}

-- Frame 3 is lost: 4 and 5 are not decoded, and the key frame 6 starts anew.
abbrev stream : List Frame
stream =
    frame false 1 ∷ frame true 2 ∷ frame true 4 ∷ frame true 5 ∷ frame false 6 ∷ frame true 7 ∷ []

stream-decoded :
    decoded (process_all stream Video.create).notices
    ≡ (pos 7, false) ∷ (pos 6, true) ∷ (pos 2, false) ∷ (pos 1, true) ∷ []
unfolding process_sample check_gop decode is_skipped note_skip ◌+ℤ◌
stream-decoded = refl

process_all-IsDecodable_example : IsDecodable (decoded (process_all stream Video.create).notices)
process_all-IsDecodable_example = process_all-IsDecodable stream (omega arith)

-- After a stop the flag of the group stays: a delta frame is decoded without the frames before it.
decoded_after_stop :
    decoded
      (process_all
        (frame true 9 ∷ [])
        (Video.stop (process_all (frame false 1 ∷ []) Video.create))).notices
    ≡ (pos 9, false) ∷ (pos 1, true) ∷ []
unfolding process_sample check_gop decode is_skipped note_skip ◌+ℤ◌ Video.stop
decoded_after_stop = refl

-- Far beyond 1 s, cut to 50 ms, and off by more than a tenth.
abbrev rounded : Doubles
rounded = record {
  is_far = λ d. ltb 1000 d;
  capped = λ d. if ltb 50 d then 50 else d;
  differs = λ t d. not_same (t == d);
}
  where
    not_same : Bool → Bool
    not_same true = false
    not_same false = true

Reach-IsSynced_example :
    IsSynced (set_threshold 400 (allow_playout 250 1000 true 0 (PlayoutControl.create 200)))
Reach-IsSynced_example =
    Reach-IsSynced rounded _ (threshold_set 400 (allowed 250 1000 true 0 (created 200)))
