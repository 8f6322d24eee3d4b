-- ===== src/Playout/Video.antt =====
-- VideoPlayoutImpl: which frames of the playback queue are decoded (cpp/src/video-playout-impl.cpp).
use ndnrtc.Base.{
  ℕ, ◌+◌, Bool, true, false, not, ◌&&◌, ◌||◌, List, [], ◌∷◌, if◌then◌else◌, ℤ, pos, negsuc, ◌+ℤ◌,
  ltb_ℤ, same_ℤ,
}

-- What `processSample` reads of a slot: whether `readPacket` joined a frame and recovered it, and the
-- playback number in the header of its segments.
pub record Frame : Type 0 where
  pub is_read : Bool
  pub is_recovered : Bool
  pub is_delta : Bool
  pub sample_no : ℕ
  pub playback_no : ℤ

-- Calls of the decoder (`processFrame`) and of the observers, in order, the latest first.
pub data Notice : Type 0 where
  frame_decoded frame_processed frame_skipped : ℤ → Bool → Notice
  recovery_failure : ℕ → Bool → Notice

-- VideoPlayoutImpl, with its indicators and the notices it gave.
pub record VideoPlayout : Type 0 where
  pub gop_is_valid : Bool
  pub current_play_no : ℤ
  pub gop_count : ℕ
  pub notices : List Notice
  pub recovered_num : ℕ
  pub skipped_num : ℕ
  pub played_num : ℕ

-- VideoPlayoutImpl::VideoPlayoutImpl
abbrev pub create : VideoPlayout
create = record {
  gop_is_valid = false;
  current_play_no = negsuc 0;
  gop_count = 0;
  notices = [];
  recovered_num = 0;
  skipped_num = 0;
  played_num = 0;
}

-- VideoPlayoutImpl::stop, behind PlayoutImpl::stop. It leaves `gopIsValid_` as it is.
unfoldable pub stop : VideoPlayout → VideoPlayout
stop v = record v { current_play_no = negsuc 0; gop_count = 0 }

-- A delta frame that does not follow the frame before it, or whose group has lost a frame.
unfoldable pub is_skipped : Frame → VideoPlayout → Bool
unfolding ◌+ℤ◌
is_skipped f v =
    not (ltb_ℤ v.current_play_no (pos 0))
    && (not (same_ℤ f.playback_no (v.current_play_no +ℤ pos 1)) || not v.gop_is_valid)

unfoldable pub note_skip : Frame → VideoPlayout → VideoPlayout
note_skip f v = record v {
  gop_is_valid = false;
  notices = frame_skipped f.playback_no (not f.is_delta) ∷ v.notices;
  skipped_num = v.skipped_num + 1;
}

-- The group of pictures after the frame.
unfoldable pub check_gop : Frame → VideoPlayout → VideoPlayout
unfolding is_skipped note_skip
check_gop f v =
    if not f.is_delta
    then record v { gop_is_valid = true; gop_count = v.gop_count + 1 }
    else if is_skipped f v
    then note_skip f v
    else v

unfoldable pub decode : Frame → VideoPlayout → VideoPlayout
decode f v = record v {
  notices =
      frame_processed f.playback_no (not f.is_delta)
      ∷ frame_decoded f.playback_no (not f.is_delta)
      ∷ v.notices;
  played_num = v.played_num + 1;
}

-- VideoPlayoutImpl::processSample, with a frame consumer and a packet that is valid.
unfoldable pub process_sample : Frame → VideoPlayout → Bool × VideoPlayout
unfolding check_gop decode
process_sample f v =
    let u : VideoPlayout = record v {
      recovered_num = if f.is_recovered then v.recovered_num + 1 else v.recovered_num;
    } in
    let w : VideoPlayout = record (check_gop f u) { current_play_no = f.playback_no } in
    if f.is_read
    then (if w.gop_is_valid then (true, decode f w) else (false, w))
    else (false, record v { notices = recovery_failure f.sample_no (not f.is_delta) ∷ v.notices })
